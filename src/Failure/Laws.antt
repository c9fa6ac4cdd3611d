-- ===== src/Failure/Laws.antt =====
-- What a chain of `+=` on error codes computes, and that their texts differ.
use Prim.Native.String.{String}
use text.Mathlib.Text.{◌==◌ as ◌=str=◌}
use mathlib.Core.Option.{some-injective}
use kaonic_comm.Shared.{
  ◌≡◌, refl, sym, ap, ◌∙◌, Option, none, some, if◌then◌else◌, List, [], ◌∷◌, All, arith, ◌↔◌, ◌⊎◌,
}
use kaonic_comm.Failure.{
  Error, ok, fail, invalid_arg, precondition_failed, timeout, not_ready, is_ok, with_error,
  accumulate, as_str,
}

abbrev IsOk : Error → Type 0
IsOk e = e ≡ ok

pub with_error-eq-ok : (e a : Error) → with_error e a ≡ ok → (e ≡ ok) × (a ≡ ok)
unfolding with_error is_ok
with_error-eq-ok e a h = ground arith

pub with_error_ok : with_error ok ok ≡ ok
unfolding with_error
with_error_ok = refl

with_error-or : (e a : Error) → (with_error e a ≡ ok) ⊎ (with_error e a ≡ fail)
unfolding with_error is_ok
with_error-or e a = ground arith

accumulate-fail : (es : List Error) → accumulate fail es ≡ fail
unfolding accumulate
accumulate-fail [] = refl
accumulate-fail (a ∷ es) = accumulate-fail es

accumulate_forth : (e : Error) (es : List Error) → accumulate e es ≡ ok → (e ≡ ok) × All IsOk es
unfolding accumulate
accumulate_forth e [] h = (h, tt)
accumulate_forth e (a ∷ es) h =
    ground (arith, accumulate_forth (with_error e a) es h, with_error-eq-ok e a)

accumulate_back : (es : List Error) → All IsOk es → accumulate ok es ≡ ok
unfolding accumulate
accumulate_back [] h = refl
accumulate_back (a ∷ es) h = ground (arith, accumulate_back es h.1)

-- A chain of `+=` that starts at `ok` ends at `ok` exactly when every error added is `ok`.
accumulate-ok : (es : List Error) → (accumulate ok es ≡ ok) ↔ All IsOk es
accumulate-ok es = (λ h. (accumulate_forth ok es h).1, accumulate_back es)

-- Once something has been added, the chain holds `ok` or `fail` and no other code: the codes of
-- the errors that went in are forgotten.
pub accumulate_collapses :
    (e a : Error) (es : List Error) → (accumulate e (a ∷ es) ≡ ok) ⊎ (accumulate e (a ∷ es) ≡ fail)
unfolding accumulate
accumulate_collapses e a [] = with_error-or e a
accumulate_collapses e a (b ∷ es) = accumulate_collapses (with_error e a) b es

-- The code that a text stands for.
code_of : String → Option Error
code_of text =
    if text =str= "ok"
    then some ok
    else if text =str= "fail"
    then some fail
    else if text =str= "invalid arg"
    then some invalid_arg
    else if text =str= "precondition_failed"
    then some precondition_failed
    else if text =str= "timeout"
    then some timeout
    else if text =str= "not_ready"
    then some not_ready
    else none

code_of-as_str : (e : Error) → code_of (as_str e) ≡ some e
unfolding as_str code_of
code_of-as_str ok = refl
code_of-as_str fail = refl
code_of-as_str invalid_arg = refl
code_of-as_str precondition_failed = refl
code_of-as_str timeout = refl
code_of-as_str not_ready = refl

-- Different codes have different texts.
as_str-injective : (a b : Error) → as_str a ≡ as_str b → a ≡ b
as_str-injective a b h =
    some-injective _ _ (sym (code_of-as_str a) ∙ ap code_of h ∙ code_of-as_str b)
