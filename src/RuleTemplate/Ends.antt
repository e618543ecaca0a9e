-- ===== src/RuleTemplate/Ends.antt =====
-- The loop of crates/rustbase-core/src/rule_template.rs comes to an end on every template.
use rustbase.Base.{
  ℕ, zero, suc, ◌+◌, ◌<◌, ◌≡◌, refl, sym, ap, ◌∙◌, Str, Option, none, some, [], ◌∷◌, ◌++◌, length,
  arith, if_both,
}
use rustbase.Error.{Result, ok, err}
use rustbase.RuleTemplate.{
  RuleContext, opens, put_before, find_close, Advance, fails, emits, emit_value, after_close,
  after_open, advance, loop, finished, substitute,
}

-- What is left behind a close is shorter than the text that was searched.
abbrev Shorter : Str → Option (Str × Str) → Type 0
Shorter t none = Unit
Shorter t (some (path, rest)) = length rest < length t

put_before-Shorter :
    (c : ℕ) (t : Str) (o : Option (Str × Str)) → Shorter t o → Shorter (c ∷ t) (put_before c o)
put_before-Shorter c t none h = tt
put_before-Shorter c t (some (path, rest)) h = omega arith

find_close-Shorter : (t : Str) → Shorter t (find_close t)
unfolding find_close
find_close-Shorter [] = tt
find_close-Shorter (c ∷ []) = tt
find_close-Shorter (c ∷ d ∷ rest) =
    if_both (Shorter (c ∷ d ∷ rest)) _ (some ([], rest)) _ (omega arith)
      (put_before-Shorter c (d ∷ rest) _ (find_close-Shorter (d ∷ rest)))

abbrev Tail : Str → Option Str → Type 0
Tail t none = Unit
Tail t (some rest) = length rest < length t

opens-Tail : (t : Str) → Tail t (opens t)
unfolding opens
opens-Tail [] = tt
opens-Tail (c ∷ []) = tt
opens-Tail (c ∷ d ∷ rest) = if_both (Tail (c ∷ d ∷ rest)) _ (some rest) none (omega arith) tt

abbrev Less : ℕ → Advance → Type 0
Less n (fails e) = Unit
Less n (emits text rest) = length rest < n

module _ (to_json : Str → Option Str) (ctx : RuleContext) where
  emit_value-Less :
      (n : ℕ) (r : Result Str) (rest : Str) → length rest < n → Less n (emit_value r rest)
  emit_value-Less n (ok v) rest h = h
  emit_value-Less n (err e) rest h = tt

  after_close-Less :
      (n : ℕ) (t : Str) (o : Option (Str × Str))
      → Shorter t o
      → length t < n
      → Less n (after_close to_json ctx o)
  after_close-Less n t none h k = tt
  after_close-Less n t (some (path, rest)) h k = emit_value-Less n _ rest (omega arith)

  after_open-Less :
      (c : ℕ) (t : Str) (o : Option Str)
      → Tail (c ∷ t) o
      → Less (suc (length t)) (after_open to_json ctx o c t)
  after_open-Less c t none h = omega arith
  after_open-Less c t (some rest) h =
      after_close-Less (suc (length t)) rest (find_close rest) (find_close-Shorter rest)
        (omega arith)

  advance-Less : (c : ℕ) (t : Str) → Less (suc (length t)) (advance to_json ctx c t)
  unfolding advance
  advance-Less c t = after_open-Less c t (opens (c ∷ t)) (opens-Tail (c ∷ t))

  -- The rest of a round.
  abbrev pub onward : (Str → Str → Option (Result Str)) → Str → Advance → Option (Result Str)
  onward go out (fails e) = some (err e)
  onward go out (emits text rest) = go rest (out ++ text)

  pub loop-onward :
      (fuel c : ℕ) (t out : Str)
      → loop to_json ctx (suc fuel) (c ∷ t) out
        ≡ onward (loop to_json ctx fuel) out (advance to_json ctx c t)
  unfolding loop
  loop-onward fuel c t out = by_advance (advance to_json ctx c t)
    where
      by_advance :
          (a : Advance)
          → (elim a [
            | fails e ↦ some (err e)
            | emits text rest ↦ loop to_json ctx fuel rest (out ++ text)
          ])
            ≡ onward (loop to_json ctx fuel) out a
      by_advance (fails e) = refl
      by_advance (emits text rest) = refl

  onward-some :
      (go : Str → Str → Option (Result Str)) (out : Str) (n : ℕ) (a : Advance)
      → Less n a
      → ((t o : Str) → length t < n → (r : Result Str) × (go t o ≡ some r))
      → (r : Result Str) × (onward go out a ≡ some r)
  onward-some go out n (fails e) h k = (err e, refl)
  onward-some go out n (emits text rest) h k = k rest (out ++ text) h

  loop-some :
      (fuel : ℕ) (t out : Str)
      → length t < fuel
      → (r : Result Str) × (loop to_json ctx fuel t out ≡ some r)
  loop-some zero t out h = absurd (omega arith)
  loop-some (suc fuel) [] out h = (ok out, unfold loop in refl)
  loop-some (suc fuel) (c ∷ t) out h =
      let (r, e) =
        onward-some (loop to_json ctx fuel) out (suc (length t)) (advance to_json ctx c t)
          (advance-Less c t) (λ s o k. loop-some fuel s o (omega arith)) in
      (r, loop-onward fuel c t out ∙ e)

  onward-more :
      (go more : Str → Str → Option (Result Str)) (out : Str) (a : Advance) (r : Result Str)
      → ((t o : Str) (s : Result Str) → go t o ≡ some s → more t o ≡ some s)
      → onward go out a ≡ some r
      → onward more out a ≡ some r
  onward-more go more out (fails e) r h k = k
  onward-more go more out (emits text rest) r h k = h rest (out ++ text) r k

  loop-more :
      (fuel more : ℕ) (t out : Str) (r : Result Str)
      → loop to_json ctx fuel t out ≡ some r
      → loop to_json ctx (fuel + more) t out ≡ some r
  loop-more zero more t out r h = unfold loop in (cc)
  loop-more (suc fuel) more [] out r h =
      let n : suc fuel + more ≡ suc (fuel + more) = omega arith in unfold loop in (rw n h)
  loop-more (suc fuel) more (c ∷ t) out r h =
      let n : suc fuel + more ≡ suc (fuel + more) = omega arith in
      let k =
        onward-more (loop to_json ctx fuel) (loop to_json ctx (fuel + more)) out
          (advance to_json ctx c t) r (loop-more fuel more) (sym (loop-onward fuel c t out) ∙ h) in
      rw n (loop-onward (fuel + more) c t out ∙ k)

  -- However much more fuel than the characters of the template the loop is given, it comes to the
  -- result of `substitute`.
  pub substitute-loop :
      (template : Str) (more : ℕ)
      → loop to_json ctx (length template + 1 + more) template []
        ≡ some (substitute to_json template ctx)
  unfolding substitute
  substitute-loop template more =
      let (r, e) = loop-some (length template + 1) template [] (omega arith) in
      loop-more (length template + 1) more template [] r e ∙ sym (ap (λ o. some (finished o)) e)
