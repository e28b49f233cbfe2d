-- ===== src/Tcpclv4/Wire/Waits.antt =====
-- Readers that leave the buffer as it was when they ask for more.
use hardy.Prelude.{
  ℕ, ◌≡◌, refl, List, Bool, true, false, Bool-cases, inl, inr, length, ltb, if◌then◌else◌,
}
use hardy.Tcpclv4.Wire.{
  Outcome, stuck, panic, more, fail, done, Reader, and_then, ◌>>=◌, ◌>>◌, return, throw, need,
  split_to, advance, get_uint, on_clone, Error,
}

abbrev pub NotMore : {T : Type 0} → Outcome T × List ℕ → Type 0
NotMore (stuck, s) = Unit
NotMore (panic, s) = Unit
NotMore (more, s) = ⊥
NotMore (fail e, s) = Unit
NotMore (done v, s) = Unit

-- A reader that never asks for more
pub record Answers {T : Type 0} (m : Reader T) : Type 0 where
  pub apply : (src : List ℕ) → NotMore (m src)

abbrev pub Kept : {T : Type 0} → List ℕ → Outcome T × List ℕ → Type 0
Kept src (stuck, s) = Unit
Kept src (panic, s) = Unit
Kept src (more, s) = s ≡ src
Kept src (fail e, s) = Unit
Kept src (done v, s) = Unit

pub record Waits {T : Type 0} (m : Reader T) : Type 0 where
  pub apply : (src : List ℕ) → Kept src (m src)

and_then-NotMore :
    {T U : Type 0} (o : Outcome T × List ℕ) (f : T → Reader U)
    → NotMore o
    → ((v : T) → Answers (f v))
    → NotMore (and_then o f)
and_then-NotMore (stuck, s) f p q = tt
and_then-NotMore (panic, s) f p q = tt
and_then-NotMore (more, s) f p q = absurd p
and_then-NotMore (fail e, s) f p q = tt
and_then-NotMore (done v, s) f p q = (q v).apply s

pub bind-Answers :
    {T U : Type 0} {m : Reader T} {f : T → Reader U}
    → Answers m
    → ((v : T) → Answers (f v))
    → Answers (m >>= f)
bind-Answers {m} {f} p q = record { apply = λ src. and_then-NotMore (m src) f (p.apply src) q }

pub split_to-Answers : (n : ℕ) → Answers (split_to n)
unfolding split_to
split_to-Answers n = record {
  apply = λ src. elim (Bool-cases (ltb (length src) n)) [ inl e ↦ rw e tt | inr e ↦ rw e tt ];
}

pub return-Answers : {T : Type 0} (v : T) → Answers (return v)
return-Answers v = record { apply = λ src. tt }

pub throw-Answers : {T : Type 0} (e : Error) → Answers (throw {T = T} e)
throw-Answers e = record { apply = λ src. tt }

pub advance-Answers : (n : ℕ) → Answers (advance n)
unfolding advance
advance-Answers n = bind-Answers (split_to-Answers n) (λ bs. return-Answers tt)

pub get_uint-Answers : (n : ℕ) → Answers (get_uint n)
unfolding get_uint
get_uint-Answers n = bind-Answers (split_to-Answers n) (λ bs. return-Answers _)

pub if-Answers :
    {T : Type 0} (b : Bool) {m m' : Reader T}
    → Answers m
    → Answers m'
    → Answers (if b then m else m')
if-Answers true p q = p
if-Answers false p q = q

NotMore-Kept : {T : Type 0} (o : Outcome T × List ℕ) (src : List ℕ) → NotMore o → Kept src o
NotMore-Kept (stuck, s) src p = tt
NotMore-Kept (panic, s) src p = tt
NotMore-Kept (more, s) src p = absurd p
NotMore-Kept (fail e, s) src p = tt
NotMore-Kept (done v, s) src p = tt

pub Answers-Waits : {T : Type 0} {m : Reader T} → Answers m → Waits m
Answers-Waits {m} p = record { apply = λ src. NotMore-Kept (m src) src (p.apply src) }

and_then-Kept :
    {T U : Type 0} (o : Outcome T × List ℕ) (f : T → Reader U) (src : List ℕ)
    → Kept src o
    → ((v : T) → Answers (f v))
    → Kept src (and_then o f)
and_then-Kept (stuck, s) f src p q = tt
and_then-Kept (panic, s) f src p q = tt
and_then-Kept (more, s) f src p q = p
and_then-Kept (fail e, s) f src p q = tt
and_then-Kept (done v, s) f src p q = NotMore-Kept (f v s) src ((q v).apply s)

pub bind-Waits :
    {T U : Type 0} {m : Reader T} {f : T → Reader U}
    → Waits m
    → ((v : T) → Answers (f v))
    → Waits (m >>= f)
bind-Waits {m} {f} p q = record { apply = λ src. and_then-Kept (m src) f src (p.apply src) q }

pub need-Waits : {T : Type 0} (n : ℕ) {m : Reader T} → Waits m → Waits (need n >> m)
unfolding need
need-Waits n p = record {
  apply = λ src. elim (Bool-cases (ltb (length src) n)) [
    | inl e ↦ rw e refl
    | inr e ↦ rw e (p.apply src)
  ];
}

pub clone-Kept :
    {T U : Type 0} (o : Outcome T) (f : T → Reader U) (src : List ℕ)
    → ((v : T) → Kept src (f v src))
    → Kept src (and_then (o, src) f)
clone-Kept stuck f src q = tt
clone-Kept panic f src q = tt
clone-Kept more f src q = refl
clone-Kept (fail e) f src q = tt
clone-Kept (done v) f src q = q v

pub on_clone-Waits :
    {T U : Type 0} (m : Reader T) {f : T → Reader U}
    → ((v : T) → Waits (f v))
    → Waits (on_clone m >>= f)
unfolding on_clone
on_clone-Waits m {f} q = record { apply = λ src. clone-Kept (m src).0 f src (λ v. (q v).apply src) }

pub ruleset answers = (
  bind-Answers, split_to-Answers, advance-Answers, get_uint-Answers, return-Answers, throw-Answers,
  if-Answers,
)
