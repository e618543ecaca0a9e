-- ===== src/RuleTemplate/Pieces.antt =====
-- What crates/rustbase-core/src/rule_template.rs makes of a template that was put together from
-- text and paths in braces.
use rustbase.Base.{
  ℕ, zero, suc, ◌+◌, ◌<◌, ◌==◌, ◌≡◌, refl, sym, ap, ◌∙◌, append_assoc, append-nil, Bool, true,
  false, not, Str, Option, some, List, [], ◌∷◌, ◌++◌, all, length, length-append, trim, utf8,
  utf8_all, arith,
}
use rustbase.Error.{Result, ok, err, ◌>>=◌}
use rustbase.RuleTemplate.{
  RuleContext, opens, find_close, resolve, emits, emit_value, after_close, advance, loop, finished,
  substitute,
}
use rustbase.RuleTemplate.Ends.{onward, loop-onward}

pub data Piece : Type 0 where
  chunk slot : Str → Piece

unfoldable pub render : List Piece → Str
render [] = []
render (chunk s ∷ ps) = s ++ render ps
render (slot path ∷ ps) = b'{' ∷ b'{' ∷ (path ++ (b'}' ∷ b'}' ∷ render ps))

-- No opening brace in the text, and no closing one in a path.
abbrev pub is_clean : Piece → Bool
is_clean (chunk s) = all (λ c. not (c == b'{')) s
is_clean (slot path) = all (λ c. not (c == b'}')) path

abbrev pub prefixed : Str → Result Str → Result Str
prefixed s (ok t) = ok (s ++ t)
prefixed s (err e) = err e

prefixed-twice : (s t : Str) (r : Result Str) → prefixed s (prefixed t r) ≡ prefixed (s ++ t) r
prefixed-twice s t (ok u) = ap ok (sym (append_assoc s t u))
prefixed-twice s t (err e) = refl

prefixed-shift :
    (s t u : Str) (r : Result Str)
    → prefixed (s ++ t) (prefixed u r) ≡ prefixed s (prefixed (t ++ u) r)
prefixed-shift s t u (ok v) = ap ok (simp append_assoc refl)
prefixed-shift s t u (err e) = refl

module _ (to_json : Str → Option Str) (ctx : RuleContext) where
  -- The bytes of the text and the values of the paths in turn, up to the first unknown path.
  unfoldable pub expand : List Piece → Result Str
  unfolding resolve trim utf8_all
  expand [] = ok []
  expand (chunk s ∷ ps) = prefixed (utf8_all s) (expand ps)
  expand (slot path ∷ ps) = resolve to_json (trim path) ctx >>= λ v. prefixed v (expand ps)

  advance-plain :
      (c : ℕ) (t : Str) → (c == b'{') ≡ false → advance to_json ctx c t ≡ emits (utf8 c) t
  unfolding advance opens
  advance-plain c [] h = refl
  advance-plain c (d ∷ t) h = ground arith

  find_close-path :
      (path rest : Str)
      → all (λ c. not (c == b'}')) path ≡ true
      → find_close (path ++ (b'}' ∷ b'}' ∷ rest)) ≡ some (path, rest)
  unfolding find_close
  find_close-path [] rest h = refl
  find_close-path (c ∷ []) rest h = ground arith
  find_close-path (c ∷ d ∷ path) rest h = ground (arith, find_close-path (d ∷ path) rest)

  advance-slot :
      (path rest : Str)
      → all (λ c. not (c == b'}')) path ≡ true
      → advance to_json ctx b'{' (b'{' ∷ (path ++ (b'}' ∷ b'}' ∷ rest)))
        ≡ emit_value (resolve to_json (trim path) ctx) rest
  unfolding advance opens
  advance-slot path rest h = ap (after_close to_json ctx) (find_close-path path rest h)

  -- What a loop makes of a text, whatever it has put out before.
  abbrev Yields : Str → Result Str → Type 0
  Yields t r =
      (fuel : ℕ) (out : Str) → length t < fuel → loop to_json ctx fuel t out ≡ some (prefixed out r)

  Yields-chunk :
      (s t : Str) (r : Result Str)
      → all (λ c. not (c == b'{')) s ≡ true
      → Yields t r
      → Yields (s ++ t) (prefixed (utf8_all s) r)
  unfolding utf8_all
  Yields-chunk [] t (ok u) h k fuel out enough = k fuel out enough
  Yields-chunk [] t (err e) h k fuel out enough = k fuel out enough
  Yields-chunk (c ∷ s) t r h k zero out enough = absurd (omega arith)
  Yields-chunk (c ∷ s) t r h k (suc fuel) out enough =
      let plain = advance-plain c (s ++ t) (ground arith) in
      let rest = Yields-chunk s t r (ground arith) k fuel (out ++ utf8 c) (omega arith) in
      loop-onward to_json ctx fuel c (s ++ t) out
      ∙ ap (onward to_json ctx (loop to_json ctx fuel) out) plain
      ∙ rest
      ∙ ap some (prefixed-shift out (utf8 c) (utf8_all s) r)

  onward-value :
      (t : Str) (r : Result Str) (value : Result Str) (fuel : ℕ) (out : Str)
      → Yields t r
      → length t < fuel
      → onward to_json ctx (loop to_json ctx fuel) out (emit_value value t)
        ≡ some (prefixed out (value >>= λ v. prefixed v r))
  onward-value t r (ok v) fuel out k enough =
      k fuel (out ++ v) enough ∙ ap some (sym (prefixed-twice out v r))
  onward-value t r (err e) fuel out k enough = refl

  Yields-render : (ps : List Piece) → all is_clean ps ≡ true → Yields (render ps) (expand ps)
  unfolding render expand
  Yields-render [] h zero out enough = absurd (omega arith)
  Yields-render [] h (suc fuel) out enough =
      unfold loop in (ap (λ s. some (ok s)) (sym (append-nil out)))
  Yields-render (chunk s ∷ ps) h fuel out enough =
      Yields-chunk s (render ps) (expand ps) (ground arith) (Yields-render ps (ground arith)) fuel
        out enough
  Yields-render (slot path ∷ ps) h zero out enough = absurd (omega arith)
  Yields-render (slot path ∷ ps) h (suc fuel) out enough =
      let l = length-append path (b'}' ∷ b'}' ∷ render ps) in
      loop-onward to_json ctx fuel b'{' _ out
      ∙ ap (onward to_json ctx (loop to_json ctx fuel) out)
          (advance-slot path (render ps) (ground arith))
      ∙ onward-value (render ps) (expand ps) (resolve to_json (trim path) ctx) fuel out
          (Yields-render ps (ground arith)) (omega arith)

  -- A template of text without opening braces and of paths without closing ones gives the bytes of
  -- its text with the value of each path in its place, or the error of its first unknown path.
  pub substitute-render :
      (ps : List Piece) → all is_clean ps ≡ true → substitute to_json (render ps) ctx ≡ expand ps
  unfolding substitute
  substitute-render ps h =
      ap finished (Yields-render ps h (length (render ps) + 1) [] (omega arith)) ∙ whole (expand ps)
    where
      whole : (r : Result Str) → prefixed [] r ≡ r
      whole (ok t) = refl
      whole (err e) = refl
