-- ===== src/Stream/Assembler/Pieces.antt =====
-- How a piece of a tool call is merged into its slot.
use grokcli_2api.Base.{
  String, not, ◌&&◌, ◌||◌, none, some, List, [], ◌∷◌, is_text, starts_with, str_eq, get_or,
  if◌then◌else◌,
}
use grokcli_2api.Stream.Events.{Tool, Piece, new_tool}
use grokcli_2api.Stream.Assembler.Wire.{Rules, get_tool, put_tool}

-- `_merge_name`
unfoldable pub merge_name : Rules → String → String → String
merge_name rules current incoming =
    let cur = rules.strip current in
    let name = rules.strip incoming in
    if not (is_text name)
    then cur
    else if not (is_text cur)
    then name
    else if str_eq name cur || starts_with cur name
    then cur
    else name

-- The id stays once it is the upstream's.
unfoldable pub merged_id : Tool → Piece → String
merged_id t p =
    if is_text p.id && (not (is_text t.id) || starts_with t.id "toolu_") then p.id else t.id

unfoldable pub merged_name : Rules → Tool → Piece → String
unfolding merge_name
merged_name rules t p =
    let n = if is_text p.function_name then merge_name rules t.name p.function_name else t.name in
    let m = if is_text p.name then merge_name rules n p.name else n in
    if is_text m then rules.canonical_outbound_tool_name m else m

-- `args_piece`, empty for `None`
unfoldable pub args_piece : Rules → String → Piece → String
args_piece rules name p = elim p.function_arguments [
  | some raw ↦ rules.normalize_tool_arguments name raw
  | none ↦ elim p.arguments [
    | some raw ↦ rules.normalize_tool_arguments name raw
    | none ↦ elim p.input [ some raw ↦ rules.normalize_tool_arguments name raw | none ↦ "" ]
  ]
]

unfoldable pub merged : Rules → Piece → Tool → Tool
unfolding merged_id merged_name args_piece
merged rules p t =
    let name = merged_name rules t p in
    let piece = args_piece rules name p in
    record t {
      id = merged_id t p;
      name = name;
      args = if is_text piece then rules.merge_tool_argument_delta name t.args piece else t.args;
    }

-- One round of the loop over `tool_calls`: a slot is made where there is none, and a stopped one stays.
unfoldable pub take_piece : Rules → Piece → List Tool → List Tool
unfolding merged get_tool put_tool
take_piece rules p ts =
    let first = new_tool p.index (if is_text p.id then p.id else p.fresh_id) in
    let t = get_or (get_tool p.index ts) first in
    if t.stopped then ts else put_tool (merged rules p t) ts

unfoldable pub take_pieces : Rules → List Piece → List Tool → List Tool
unfolding take_piece
take_pieces rules [] ts = ts
take_pieces rules (p ∷ ps) ts = take_pieces rules ps (take_piece rules p ts)
