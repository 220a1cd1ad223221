-- ===== src/Node/UrlPath/RoundTrip.antt =====
-- node/path_slice.go: ParseUrlPath reads a printed path.
use c2g.Common.{
  ℕ, ◌≡◌, refl, ap, ◌∙◌, ◌≢◌, List, [], ◌∷◌, ◌++◌, Bytes, false, Option, none, some, ok, map, join,
  All, ◌==◌,
}
use mathlib.Core.List.{append-nil}
use c2g.Val.Dyn.{Floats}
use c2g.Val.Value.{Value}
use c2g.Node.ListRange.{cut, split}
use c2g.Node.ListRange.Parse.{Free, cut-Free, split-Free, split-Free_end}
use c2g.Node.UrlPath.{
  Definitions, Unescape, UrlSegment, unescape_each, parts, ident_and_keys, key_of, segment_of,
  segments_from, parse_url_path,
}

-- What Go promises of url.QueryEscape and url.QueryUnescape: the one undoes the other, and what is
-- escaped stands safely in a URL, in particular without these bytes, and is empty only for the empty
-- text.
pub record IsEscape (escape : Bytes → Bytes) (u : Unescape) : Type 0 where
  pub undone : (s : Bytes) → u (escape s) ≡ some s
  pub nonempty : (s : Bytes) → s ≢ [] → escape s ≢ []
  pub free : (s : Bytes) → Free b'/' (escape s) × Free b'=' (escape s) × Free b',' (escape s)

-- A segment as it is written: the identifier and the texts of the keys.
pub record Written : Type 0 where
  pub name : Bytes
  pub keys : List Bytes

abbrev pub key_text : (Bytes → Bytes) → List Bytes → Bytes
key_text escape [] = []
key_text escape (k ∷ ks) = b'=' ∷ join (b',' ∷ []) (map escape (k ∷ ks))

abbrev pub segment_text : (Bytes → Bytes) → Written → Bytes
segment_text escape w = escape w.name ++ key_text escape w.keys

abbrev pub path_text : (Bytes → Bytes) → List Written → Bytes
path_text escape ws = join (b'/' ∷ []) (map (segment_text escape) ws)

Free-append : (c : ℕ) (x y : Bytes) → Free c x → Free c y → Free c (x ++ y)
Free-append c [] y h k = k
Free-append c (a ∷ x) y h k = (h.0, Free-append c x y h.1 k)

split-join :
    (c : ℕ) (x : Bytes) (xs : List Bytes)
    → All (Free c) (x ∷ xs)
    → parts (split c (join (c ∷ []) (x ∷ xs))) ≡ x ∷ xs
split-join c x [] h = ap parts (split-Free_end c x h.0)
split-join c x (y ∷ ys) h =
    ap parts (split-Free c x (join (c ∷ []) (y ∷ ys)) _ _ h.0 refl)
    ∙ ap (λ l. x ∷ l) (split-join c y ys h.1)

cut-none : (c : ℕ) (x : Bytes) → Free c x → cut c x ≡ none
unfolding cut
cut-none c [] h = refl
cut-none c (a ∷ x) h = rw (h.0, cut-none c x h.1) refl

All-map :
    (P : Bytes → Type 0) (f : Bytes → Bytes) (xs : List Bytes)
    → ((x : Bytes) → P (f x))
    → All P (map f xs)
All-map P f [] h = tt
All-map P f (x ∷ xs) h = (h x, All-map P f xs h)

Free-join :
    (c d : ℕ) (xs : List Bytes) → (d == c) ≡ false → All (Free c) xs → Free c (join (d ∷ []) xs)
Free-join c d [] n h = tt
Free-join c d (x ∷ []) n h = h.0
Free-join c d (x ∷ y ∷ ys) n h =
    Free-append c x (d ∷ join (d ∷ []) (y ∷ ys)) h.0 (n, Free-join c d (y ∷ ys) n h.1)

module _ (escape : Bytes → Bytes) (u : Unescape) (h : IsEscape escape u) where
  unescape_each-map : (ks : List Bytes) → unescape_each u (map escape ks) ≡ ok ks
  unfolding unescape_each
  unescape_each-map [] = refl
  unescape_each-map (k ∷ ks) = rw (h.undone k) (rw (unescape_each-map ks) refl)

  keys_read :
      (k : Bytes) (ks : List Bytes)
      → unescape_each u (parts (split b',' (join (b',' ∷ []) (map escape (k ∷ ks))))) ≡ ok (k ∷ ks)
  keys_read k ks =
      ap (unescape_each u) (
        split-join b',' (escape k) (map escape ks)
          (All-map (Free b',') escape (k ∷ ks) (λ y. (h.free y).2)))
      ∙ unescape_each-map (k ∷ ks)

  ident_and_keys-segment_text :
      (w : Written) → ident_and_keys u (segment_text escape w) ≡ ok (w.name, w.keys)
  unfolding ident_and_keys
  ident_and_keys-segment_text w = by_keys w.name w.keys
    where
      by_keys :
          (x : Bytes) (ks : List Bytes)
          → ident_and_keys u (escape x ++ key_text escape ks) ≡ ok (x, ks)
      by_keys x [] =
          rw (append-nil (escape x))
            (rw (cut-none b'=' (escape x) (h.free x).1, ident_and_keys) (rw (h.undone x) refl))
      by_keys x (k ∷ ks) =
          rw
            (
              cut-Free b'=' (escape x) (join (b',' ∷ []) (map escape (k ∷ ks))) (h.free x).1,
              ident_and_keys,
            )
            (rw (h.undone x) (rw (keys_read k ks) refl))

  segment_text-Free : (w : Written) → Free b'/' (segment_text escape w)
  segment_text-Free w = Free-append b'/' (escape w.name) _ (h.free w.name).0 (by_keys w.keys)
    where
      by_keys : (ks : List Bytes) → Free b'/' (key_text escape ks)
      by_keys [] = tt
      by_keys (k ∷ ks) = (
        refl,
        Free-join b'/' b',' (map escape (k ∷ ks)) refl
            (All-map (Free b'/') escape (k ∷ ks) (λ y. (h.free y).0)),
      )

module _ {F : Type 0} (lib : Floats F) (D : Definitions) where
  -- The definitions and the values of the keys that written segments stand for, from a definition on.
  pub data Follows : D.Meta → List Written → List (UrlSegment D.Meta F) → Type 0 where
    here : {p : D.Meta} → Follows p [] []
    step :
        {w : Written} {ws : List Written} {p m : D.Meta} {k : List (Option (Value F))}
        {segs : List (UrlSegment D.Meta F)}
        → w.name ≢ []
        → D.find p w.name ≡ some (some m)
        → key_of lib D m w.keys ≡ ok k
        → Follows m ws segs
        → Follows p (w ∷ ws) (record { meta = m; key = k } ∷ segs)

  module _ (escape : Bytes → Bytes) (u : Unescape) (h : IsEscape escape u) where
    segment_of-eq :
        (p m : D.Meta) (w : Written) (k : List (Option (Value F)))
        → D.find p w.name ≡ some (some m)
        → key_of lib D m w.keys ≡ ok k
        → segment_of lib D u p (segment_text escape w) ≡ ok (record { meta = m; key = k })
    unfolding segment_of
    segment_of-eq p m w k f e =
        rw (ident_and_keys-segment_text escape u h w, segment_of) (rw f (rw e refl))

    nonempty_text : (w : Written) → w.name ≢ [] → segment_text escape w ≢ []
    nonempty_text w n = by_name (escape w.name) (h.nonempty w.name n)
      where
        by_name : (x : Bytes) → x ≢ [] → x ++ key_text escape w.keys ≢ []
        by_name [] n = absurd (n refl)
        by_name (c ∷ x) n = λ e. cc

    segments_from-text :
        (p : D.Meta) (ws : List Written) (segs : List (UrlSegment D.Meta F))
        → Follows p ws segs
        → segments_from lib D u p (map (segment_text escape) ws) ≡ ok segs
    unfolding segments_from
    segments_from-text p [] segs here = refl
    segments_from-text p (w ∷ ws) segs (step {m = m} {k = k} {segs = tail} n f e rest) =
        on (segment_text escape w) (nonempty_text w n) (segment_of-eq p m w k f e)
          (segments_from-text m ws tail rest)
      where
        on :
            (x : Bytes)
            → x ≢ []
            → segment_of lib D u p x ≡ ok (record { meta = m; key = k })
            → segments_from lib D u m (map (segment_text escape) ws) ≡ ok tail
            → segments_from lib D u p (x ∷ map (segment_text escape) ws) ≡ ok segs
        on [] n f ih = absurd (n refl)
        on (c ∷ x) n f ih = rw (f, segments_from) (rw ih refl)

    -- ParseUrlPath reads the text of a path back: the segments with their names and the texts of
    -- their keys escaped, joined by slashes, the keys behind an equals sign and joined by commas. It
    -- gives the definitions that are found one from another and the values that NewValuesByString
    -- makes of the keys, provided that no name is empty and each definition is found.
    pub parse_url_path-path_text :
        (m : D.Meta) (ws : List Written) (segs : List (UrlSegment D.Meta F))
        → Follows m ws segs
        → parse_url_path lib D u m (path_text escape ws) ≡ ok segs
    unfolding parse_url_path segments_from
    parse_url_path-path_text m [] segs here = refl
    parse_url_path-path_text m (w ∷ ws) segs f =
        ap (segments_from lib D u m) (
          split-join b'/' (segment_text escape w) (map (segment_text escape) ws)
            (segment_text-Free escape u h w, all_free ws))
        ∙ segments_from-text m (w ∷ ws) segs f
      where
        all_free : (ws : List Written) → All (Free b'/') (map (segment_text escape) ws)
        all_free [] = tt
        all_free (v ∷ vs) = (segment_text-Free escape u h v, all_free vs)
