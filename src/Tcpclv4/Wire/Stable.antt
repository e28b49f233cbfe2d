-- ===== src/Tcpclv4/Wire/Stable.antt =====
-- More input changes neither a value nor a failure.
use hardy.Prelude.{
  ℕ, zero, suc, inl, inr, Bool-cases, Bool, true, false, if◌then◌else◌, ltb, ◌≤◌, ◌≡◌, refl, ◌∙◌,
  List, [], ◌∷◌, ◌++◌, arith, length, take, drop, length-append,
}
use hardy.Cbor.Bytes.{from_be_bytes}
use hardy.Tcpclv4.Wire.{
  Error, Outcome, stuck, panic, more, fail, done, Reader, and_then, ◌>>=◌, return, throw, need,
  split_to, advance, get_uint, on_clone, out_of_fuel,
}

-- What a reader makes of an input that has a suffix, beside what it makes of it without: neither a
-- value nor a failure changes.
abbrev pub Extends : {T : Type 0} → List ℕ → Outcome T × List ℕ → Outcome T × List ℕ → Type 0
Extends suffix (stuck, rest) later = Unit
Extends suffix (panic, rest) later = Unit
Extends suffix (more, rest) later = Unit
Extends suffix (fail e, rest) later = later.0 ≡ fail e
Extends suffix (done v, rest) later = later ≡ (done v, rest ++ suffix)

pub record IsStable {T : Type 0} (m : Reader T) : Type 0 where
  pub apply : (src suffix : List ℕ) → Extends suffix (m src) (m (src ++ suffix))

fail-and_then :
    {T U : Type 0} (o : Outcome T × List ℕ) (f : T → Reader U) (e : Error)
    → o.0 ≡ fail e
    → (and_then o f).0 ≡ fail e
fail-and_then (stuck, s) f e h = cc
fail-and_then (panic, s) f e h = cc
fail-and_then (more, s) f e h = cc
fail-and_then (fail x, s) f e h = cc
fail-and_then (done v, s) f e h = cc

and_then-Extends :
    {T U : Type 0} (suffix : List ℕ) (now later : Outcome T × List ℕ) (f : T → Reader U)
    → Extends suffix now later
    → ((v : T) → IsStable (f v))
    → Extends suffix (and_then now f) (and_then later f)
and_then-Extends suffix (stuck, s) later f h q = tt
and_then-Extends suffix (panic, s) later f h q = tt
and_then-Extends suffix (more, s) later f h q = tt
and_then-Extends suffix (fail e, s) later f h q = fail-and_then later f e h
and_then-Extends suffix (done v, s) later f h q = rw h ((q v).apply s suffix)

pub bind-IsStable :
    {T U : Type 0} {m : Reader T} {f : T → Reader U}
    → IsStable m
    → ((v : T) → IsStable (f v))
    → IsStable (m >>= f)
bind-IsStable {m} {f} p q = record {
  apply =
      λ src suffix. and_then-Extends suffix (m src) (m (src ++ suffix)) f (p.apply src suffix) q;
}

pub need-IsStable : (n : ℕ) → IsStable (need n)
unfolding need
need-IsStable n = record {
  apply = λ src suffix. elim (Bool-cases (ltb (length src) n)) [
    | inl short ↦ rw short tt
    | inr long ↦ rw long (ground (arith, length-append src suffix))
  ];
}

take-append_le : (n : ℕ) (xs ys : List ℕ) → n ≤ length xs → take n (xs ++ ys) ≡ take n xs
take-append_le zero xs ys h = refl
take-append_le (suc n) [] ys h = absurd (omega arith)
take-append_le (suc n) (x ∷ xs) ys h = rw (take-append_le n xs ys (omega arith))

drop-append_le : (n : ℕ) (xs ys : List ℕ) → n ≤ length xs → drop n (xs ++ ys) ≡ drop n xs ++ ys
drop-append_le zero xs ys h = refl
drop-append_le (suc n) [] ys h = absurd (omega arith)
drop-append_le (suc n) (x ∷ xs) ys h = drop-append_le n xs ys (omega arith)

pub split_to-IsStable : (n : ℕ) → IsStable (split_to n)
unfolding split_to
split_to-IsStable n = record {
  apply = λ src suffix. elim (Bool-cases (ltb (length src) n)) [
    | inl short ↦ rw short tt
    | inr long ↦ rw long (
        ground (
          arith,
          length-append src suffix,
          take-append_le n src suffix,
          drop-append_le n src suffix,
        ))
  ];
}

pub return-IsStable : {T : Type 0} (v : T) → IsStable (return v)
return-IsStable v = record { apply = λ src suffix. refl }

pub throw-IsStable : {T : Type 0} (e : Error) → IsStable (throw {T = T} e)
throw-IsStable e = record { apply = λ src suffix. refl }

pub advance-IsStable : (n : ℕ) → IsStable (advance n)
unfolding advance
advance-IsStable n = bind-IsStable (split_to-IsStable n) (λ bs. return-IsStable tt)

pub get_uint-IsStable : (n : ℕ) → IsStable (get_uint n)
unfolding get_uint
get_uint-IsStable n = bind-IsStable (split_to-IsStable n) (λ bs. return-IsStable (from_be_bytes bs))

on_clone-Extends :
    {T : Type 0} (src suffix : List ℕ) (now later : Outcome T × List ℕ)
    → Extends suffix now later
    → Extends suffix (now.0, src) (later.0, src ++ suffix)
on_clone-Extends src suffix (stuck, s) later h = tt
on_clone-Extends src suffix (panic, s) later h = tt
on_clone-Extends src suffix (more, s) later h = tt
on_clone-Extends src suffix (fail e, s) later h = h
on_clone-Extends src suffix (done v, s) later h = rw h

pub on_clone-IsStable : {T : Type 0} {m : Reader T} → IsStable m → IsStable (on_clone m)
unfolding on_clone
on_clone-IsStable {m} p = record {
  apply =
      λ src suffix. on_clone-Extends src suffix (m src) (m (src ++ suffix)) (p.apply src suffix);
}

pub Extends-fail :
    {T : Type 0} (suffix : List ℕ) (now later : Outcome T × List ℕ) (e : Error)
    → now.0 ≡ fail e
    → Extends suffix now later
    → later.0 ≡ fail e
Extends-fail suffix (stuck, s) later e h p = cc
Extends-fail suffix (panic, s) later e h p = cc
Extends-fail suffix (more, s) later e h p = cc
Extends-fail suffix (fail x, s) later e h p = p ∙ h
Extends-fail suffix (done v, s) later e h p = cc

pub out_of_fuel-IsStable : {T : Type 0} → IsStable (out_of_fuel {T = T})
out_of_fuel-IsStable = record { apply = λ src suffix. tt }

pub if-IsStable :
    {T : Type 0} (b : Bool) {m m' : Reader T}
    → IsStable m
    → IsStable m'
    → IsStable (if b then m else m')
if-IsStable true p q = p
if-IsStable false p q = q

pub ruleset stable = (
  bind-IsStable, need-IsStable, split_to-IsStable, advance-IsStable, get_uint-IsStable,
  return-IsStable, throw-IsStable, on_clone-IsStable, if-IsStable,
)
