-- ===== src/RuleTemplate.antt =====
-- crates/rustbase-core/src/rule_template.rs: the values of a request put into an access rule. A
-- template is its characters, of which the loop reads the bytes: the braces it looks for are bytes
-- of no other character, so a path between them is always valid UTF-8, and a character outside
-- ASCII comes out as one character for each of its bytes. The loop runs on fuel, the length of the
-- template and one. `serde_json::to_string` is a parameter.
pub mod Ends
pub mod Pieces
use rustbase.Base.{
  ℕ, zero, suc, ◌+◌, ◌==◌, Bool, true, false, ◌&&◌, Str, codes, str_eq, Option, none, some, List,
  [], ◌∷◌, ◌++◌, length, trim, utf8, if◌then◌else◌,
}
use rustbase.Error.{CoreError, validation, internal, Result, ok, err}

pub record RuleContext : Type 0 where
  pub user_id : Option Str
  pub user_email : Option Str
  pub user_workspace : Option Str

-- The text behind an opening "{{".
unfoldable pub opens : Str → Option Str
opens [] = none
opens (c ∷ []) = none
opens (c ∷ d ∷ rest) = if c == b'{' && d == b'{' then some rest else none

abbrev pub put_before : ℕ → Option (Str × Str) → Option (Str × Str)
put_before c none = none
put_before c (some (path, rest)) = some (c ∷ path, rest)

-- The search for the closing "}}": what stands before it and behind it.
unfoldable pub find_close : Str → Option (Str × Str)
find_close [] = none
find_close (c ∷ []) = none
find_close (c ∷ d ∷ rest) =
    let further = put_before c (find_close (d ∷ rest)) in
    if c == b'}' && d == b'}' then some ([], rest) else further

module _ (to_json : Str → Option Str) where
  abbrev pub encoded : Option Str → Str
  encoded none = codes "null"
  encoded (some v) = elim (to_json v) [ none ↦ codes "null" | some text ↦ text ]

  unfoldable pub resolve : Str → RuleContext → Result Str
  resolve path ctx =
      if str_eq path (codes "request.auth.id")
      then ok (encoded ctx.user_id)
      else if str_eq path (codes "request.auth.email")
      then ok (encoded ctx.user_email)
      else if str_eq path (codes "request.auth.workspace")
      then ok (encoded ctx.user_workspace)
      else err (validation (codes "unknown rule-template path: " ++ path))

-- One round of the loop: an early return, or what is put out and what is left to read.
pub data Advance : Type 0 where
  fails : CoreError → Advance
  emits : Str → Str → Advance

abbrev pub unterminated : CoreError
unterminated = validation (codes "unterminated {{ }} in rule template")

abbrev pub emit_value : Result Str → Str → Advance
emit_value (ok value) rest = emits value rest
emit_value (err e) rest = fails e

module _ (to_json : Str → Option Str) (ctx : RuleContext) where
  abbrev pub after_close : Option (Str × Str) → Advance
  after_close none = fails unterminated
  after_close (some (path, rest)) = emit_value (resolve to_json (trim path) ctx) rest

  abbrev pub after_open : Option Str → ℕ → Str → Advance
  after_open none c t = emits (utf8 c) t
  after_open (some rest) c t = after_close (find_close rest)

  unfoldable pub advance : ℕ → Str → Advance
  unfolding opens find_close resolve trim utf8
  advance c t = after_open (opens (c ∷ t)) c t

  unfoldable pub loop : ℕ → Str → Str → Option (Result Str)
  unfolding advance
  loop zero t out = none
  loop (suc fuel) [] out = some (ok out)
  loop (suc fuel) (c ∷ t) out = elim (advance c t) [
    | fails e ↦ some (err e)
    | emits text rest ↦ loop fuel rest (out ++ text)
  ]

abbrev pub out_of_fuel : CoreError
out_of_fuel = internal (codes "out of fuel")

-- The result of a loop, an error of the model's own where its fuel ran out.
abbrev pub finished : Option (Result Str) → Result Str
finished none = err out_of_fuel
finished (some r) = r

unfoldable pub substitute : (Str → Option Str) → Str → RuleContext → Result Str
unfolding loop
substitute to_json template ctx = finished (loop to_json ctx (length template + 1) template [])
