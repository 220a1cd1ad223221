-- ===== src/Node/KeyList/Laws.antt =====
-- node/key_list_builder.go: the key that is read of a path.
use c2g.Common.{
  ℕ, ◌≡◌, refl, sym, ap, ◌∙◌, true, false, [], ◌∷◌, ◌++◌, Bytes, none, some, length, drop, arith,
  ◌==◌, All,
}
use mathlib.Core.List.{append_assoc, append-nil}
use c2g.Node.ListRange.{cut}
use c2g.Parser.Lexer.{has_prefix}
use c2g.Node.KeyList.{KeyListBuilder, insert_key, up_to_slash, parse_key}

abbrev pub HasNoSlash : Bytes → Type 0
HasNoSlash s = All (λ c. (c == b'/') ≡ false) s

-- What may stand behind a key.
abbrev pub IsRest : Bytes → Type 0
IsRest [] = Unit
IsRest (c ∷ s) = (c == b'/') ≡ true

cut-none : (k : Bytes) → HasNoSlash k → cut b'/' k ≡ none
unfolding cut
cut-none [] h = refl
cut-none (c ∷ k) h = let l = h.0 in rw (l, cut-none k h.1, cut) refl

cut-slash :
    (k : Bytes) (c : ℕ) (s : Bytes)
    → HasNoSlash k
    → (c == b'/') ≡ true
    → cut b'/' (k ++ c ∷ s) ≡ some (k, s)
unfolding cut
cut-slash [] c s h e = rw (e, cut) refl
cut-slash (d ∷ k) c s h e = let l = h.0 in rw (l, cut-slash k c s h.1 e, cut) refl

up_to_slash-key : (k s : Bytes) → HasNoSlash k → IsRest s → up_to_slash (k ++ s) ≡ k
unfolding up_to_slash
up_to_slash-key k [] h r = ap up_to_slash (append-nil k) ∙ rw (cut-none k h, up_to_slash) refl
up_to_slash-key k (c ∷ s) h r = rw (cut-slash k c s h r, up_to_slash) refl

has_prefix_self : (p s : Bytes) → has_prefix p (p ++ s) ≡ true
has_prefix_self [] s = refl
has_prefix_self (c ∷ p) s = ground (arith, has_prefix_self p s)

drop-length : (p s : Bytes) → drop (length p) (p ++ s) ≡ s
drop-length [] s = refl
drop-length (c ∷ p) s = drop-length p s

-- Of a path `list=key`, or of one that goes on behind it with a slash, the key is put into the set.
pub parse_key-key :
    (klb : KeyListBuilder) (list key rest : Bytes)
    → klb.prefix ≡ list ++ b'=' ∷ []
    → klb.key_start ≡ length klb.prefix
    → HasNoSlash key
    → IsRest rest
    → parse_key klb (list ++ b'=' ∷ (key ++ rest))
      ≡ (true, record klb { set = insert_key key klb.set })
unfolding parse_key
parse_key-key klb list key rest p n h r =
    let path = append_assoc list (b'=' ∷ []) (key ++ rest) in
    let has : has_prefix klb.prefix (list ++ b'=' ∷ (key ++ rest)) ≡ true = rw p (
      ap (has_prefix (list ++ b'=' ∷ [])) (sym path)
      ∙ has_prefix_self (list ++ b'=' ∷ []) (key ++ rest)) in
    let behind : drop klb.key_start (list ++ b'=' ∷ (key ++ rest)) ≡ key ++ rest =
      rw (n, p)
        (ap (drop (length (list ++ b'=' ∷ []))) (sym path)
          ∙ drop-length (list ++ b'=' ∷ []) (key ++ rest)) in
    rw (has, parse_key)
      (ap (λ k. (true, record klb { set = insert_key k klb.set }))
        (ap up_to_slash behind ∙ up_to_slash-key key rest h r))
