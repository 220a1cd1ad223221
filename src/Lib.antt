-- ===== src/Lib.antt =====
-- The core of c2g, a Go library for data that YANG modules describe: the lexer of the modules, leaf
-- values, the evaluation of the features that switch definitions on, the paths that requests use,
-- the constraints and filters that requests meet, and the edits of data.
--
-- Parts, by the file that models them and the file of the repository that they model:
--   Common        shared helpers: lists, byte strings, results, and Go's integers. `ℤ` stands for
--                 every Go integer; `wrap_signed` and `wrap_unsigned` are the conversions that keep
--                 the low bits. `int` and `uint` have 64 bits.
--   Val/Format    val/format.go: Format, Single, IsList, TypeAsFormat, String.
--   Val/Dyn       the dynamic types that val/conv.go switches on. `F` stands for float64, and the
--                 record `Floats` for the operations of Go on it.
--   Val/Strconv   the integer half of the package strconv, in base 10.
--   Val/Value     val/types.go: the value types, Format, String; with Val/Value/Enums (EnumList,
--                 IdentRefList), Val/Value/Compare (Compare, and val/util.go's Equal, EqualVals and
--                 CompareVals) and Val/Value/Items (Len, Item, and val/util.go's Reduce).
--   Val/Conv      val/conv.go: Conv and ConvOneOf, on Val/Conv/Scalars (toInt8 and its like) and
--                 Val/Conv/Slices (toInt8List and its like).
--   Meta/Feature  meta/core.go: IfFeature.Evaluate and its evaluator ifFeatureEval (eval is `eval`,
--                 `scan`, `round` and `operate`, by the parts of its loop).
--   Meta/Feature/Set  meta/feature_set.go: supportedFeatures, Initialize, Resolve, checkFeature.
--   Meta/Range    meta/core.go: newRange, and Empty and String of Range.
--   Meta/Mixin    meta/core.go: mixin of Type, on the fields that it looks at.
--   Meta/Defs     meta/core.go: the data definitions of a module as a tree.
--   Meta/Deviation  meta/resolver.go: applyDeviation on the definition that Find gives, without the
--                 removal of one that is not supported; the accessors it calls are those of
--                 meta/core_gen.go. sort.Strings is a parameter, with what Go promises of it in
--                 `IsSort`.
--   Meta/Compile  meta/compile.go: inheritConfig and what compile does for config, and the values of
--                 enums of compileType.
--   Meta/Index    meta/core_gen.go: addDataDefinition, popDataDefinitions and the index of a container,
--                 on definitions that do not change behind their addition.
--   Node/Callbacks  node/selection.go: beginEdit, endEdit and Delete, with node/trigger.go's calls of
--                 the triggers. A selection is its node and those of its parents.
--   Node/Choices  node/container_meta_list.go: the iterator over the definitions of a container.
--   Node/Edit     node/edit.go: Node/Edit/Editor is the editor, over the methods of selections that
--                 it calls, which are the record `Selections`; Node/Edit/Memory is one for the tests.
--   Node/Path     node/path.go: Equal, EqualNoKey and the texts of paths.
--   Node/Matcher  node/path_matcher.go: ParsePathExpression and parsex; with
--                 Node/Matcher/Match: PathMatches and sliceMatches.
--   Node/ListRange  node/list_range.go, with ListRequest of node/request.go and the iteration of
--                 node/selection.go (First and Next).
--   Node/FieldsMatcher  node/fields_matcher.go: both constructors and both checks.
--   Node/Values   node/value.go: NewValue, NewValues, NewValuesByString, EncodeKey; with Identity and
--                 Derived of meta/core.go. The identities derived from one form a tree.
--   Node/Constraints  node/constraints.go: AddConstraint, NewConstraints, compile and the checks, by
--                 the kind of the request; the order of Go's loops over maps and sort.Sort are the
--                 parameter `GoLib`, with what Go promises of them in `IsGoLib`.
--   Node/Filters  node/max_depth.go, node/max_node.go, node/content_param.go, and node/
--                 with_defaults_param.go (its check is Node/Filters/Defaults).
--   Node/UrlPath  node/path_slice.go: ParseUrlPath, with url.QueryUnescape as a parameter, and the
--                 definitions that a path goes through (meta.Find) as the record `Definitions`.
--   Node/KeyList  node/key_list_builder.go: ParseKey and List.
--   Fc            fc/err.go: HttpStatusCode, by what errors.Is says.
--   Parser/Ring   parser/lexer.go: pushToken and popToken, on the tokens with their two indices.
--   Parser/Lexer  parser/lexer.go: Lexer/Blank is acceptWS, Lexer/Accept the other functions
--                 `accept…` and emit, Lexer/Begin lexBegin, list of keywords by list, and
--                 Lexer/Next lex, nextToken and Lex (parser/parser.go). The text is ASCII, and a
--                 position is what stands behind it.
-- Conv makes the leaf values; their Equal compares the keys of paths; feature sets call the evaluator
-- through Resolve, which stores its results, and checkFeature calls Resolve; list ranges and field
-- filters hold path expressions, and ask PathMatches. NewValue calls Conv and ConvOneOf, and
-- ParseUrlPath makes the keys of a path by NewValuesByString. The filters are
-- among the constraints that a request meets. The lexer pushes its tokens on the ring. The editor asks
-- the iterator for the definitions that its source shows, and in clearChoiceCase for those of a case.
--
-- Panics and errors are values: `none` is a panic (or fuel that has run out, where a definition takes
-- fuel), and a `Result` holds an error. A map is an association list or the list of its keys.
-- Fuel: the evaluator of features and `parsex` take one more than their text is long, since every
-- round takes a byte at least; the digits of a number take one more than the number;
-- acceptString and nextToken take more than the rest of the text is long, since each call of their own
-- follows a rune that is taken; the iterator of a container takes a round for each definition and
-- three more for each choice, which `cost` counts, and clearChoiceCase two more than that. The
-- loop behind the name of an extension ends for the same reason, but for the end of the text, where it
-- does not end and the fuel runs out. The ring has 64 slots.
--
-- Not modelled: floats, whose operations are parameters; the grammar of YANG, which is generated
-- (parser/parser.go), xpath, the rest of the compiler of meta and the resolution
-- of uses, augments and imports, the selections of node but for the calls named above, and nodeutil.
pub mod Fc
pub mod Common
pub mod Val
pub mod Meta
pub mod Node
pub mod Parser
