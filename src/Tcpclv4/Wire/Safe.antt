-- ===== src/Tcpclv4/Wire/Safe.antt =====
-- Readers that do not panic.
use hardy.Prelude.{
  ℕ, inl, inr, Bool-cases, ltb, ◌+◌, ◌-◌, ◌≤◌, ◌≡◌, refl, List, arith, length, take, drop,
  length-drop,
}
use hardy.Cbor.Bytes.{from_be_bytes}
use hardy.Tcpclv4.Wire.{
  Error, Outcome, stuck, panic, more, fail, done, Reader, and_then, ◌>>=◌, ◌>>◌, return, throw,
  need, split_to, advance, get_uint, on_clone,
}

-- An outcome that is one of the program's, with `R` of the value and of the length of what is left.
abbrev pub Post : {T : Type 0} → (T → ℕ → Type 0) → Outcome T × List ℕ → Type 0
Post R (stuck, rest) = ⊥
Post R (panic, rest) = ⊥
Post R (more, rest) = Unit
Post R (fail e, rest) = Unit
Post R (done v, rest) = R v (length rest)

-- With `n` bytes to read, `m` does not panic, and `Q` relates the lengths before and after its run.
pub record Runs {T : Type 0} (n : ℕ) (m : Reader T) (Q : ℕ → T → ℕ → Type 0) : Type 0 where
  pub apply : (src : List ℕ) → n ≤ length src → Post (Q (length src)) (m src)

Post-mono :
    {T : Type 0} (o : Outcome T × List ℕ) (P Q : T → ℕ → Type 0)
    → ((v : T) (k : ℕ) → P v k → Q v k)
    → Post P o
    → Post Q o
Post-mono (stuck, s) P Q h p = absurd p
Post-mono (panic, s) P Q h p = absurd p
Post-mono (more, s) P Q h p = tt
Post-mono (fail e, s) P Q h p = tt
Post-mono (done v, s) P Q h p = h v (length s) p

and_then-map :
    {A B U : Type 0} (o : Outcome A × List ℕ) (g : A → B) (f : B → Reader U)
    → and_then (and_then o (λ a. return (g a))) f ≡ and_then o (λ a. f (g a))
and_then-map (stuck, s) g f = refl
and_then-map (panic, s) g f = refl
and_then-map (more, s) g f = refl
and_then-map (fail e, s) g f = refl
and_then-map (done v, s) g f = refl

and_then-Post :
    {T U : Type 0} (o : Outcome T × List ℕ) (f : T → Reader U) (P : T → ℕ → Type 0)
    (R : T → ℕ → U → ℕ → Type 0) (Q : U → ℕ → Type 0)
    → Post P o
    → ((v : T) (k : ℕ) → P v k → Runs 0 (f v) (R v))
    → ((v : T) (w : U) (k j : ℕ) → P v k → R v k w j → Q w j)
    → Post Q (and_then o f)
and_then-Post (stuck, s) f P R Q p q join = absurd p
and_then-Post (panic, s) f P R Q p q join = absurd p
and_then-Post (more, s) f P R Q p q join = tt
and_then-Post (fail e, s) f P R Q p q join = tt
and_then-Post (done v, s) f P R Q p q join =
    Post-mono (f v s) (R v (length s)) Q (λ w j. join v w (length s) j p)
      ((q v (length s) p).apply s (omega arith))

pub clone-Post :
    {T U : Type 0} (o : Outcome T × List ℕ) (f : T → Reader U) (src : List ℕ) (P : T → Type 0)
    (Q : U → ℕ → Type 0)
    → Post (λ v _. P v) o
    → ((v : T) → P v → Post Q (f v src))
    → Post Q (and_then (o.0, src) f)
clone-Post (stuck, s) f src P Q p q = absurd p
clone-Post (panic, s) f src P Q p q = absurd p
clone-Post (more, s) f src P Q p q = tt
clone-Post (fail e, s) f src P Q p q = tt
clone-Post (done v, s) f src P Q p q = q v p

module _ {T : Type 0} {n : ℕ} {Q : ℕ → T → ℕ → Type 0} where
  pub Runs-return : (v : T) → ((l : ℕ) → n ≤ l → Q l v l) → Runs n (return v) Q
  Runs-return v h = record { apply = λ src k. h (length src) k }

  pub Runs-throw : (e : Error) → Runs n (throw e) Q
  Runs-throw e = record { apply = λ src k. tt }

  pub Runs-need : {m : Reader T} (k : ℕ) → Runs k m Q → Runs n (need k >> m) Q
  unfolding need
  Runs-need {m} k h = record {
    apply = λ src l. elim (Bool-cases (ltb (length src) k)) [
      | inl short ↦ rw short tt
      | inr long ↦ rw long (h.apply src (ground arith))
    ];
  }

  pub Runs-split_to :
      (k : ℕ) (f : List ℕ → Reader T)
      → k ≤ n
      → ((bs : List ℕ) → Runs (n - k) (f bs) (λ l. Q (l + k)))
      → Runs n (split_to k >>= f) Q
  unfolding split_to
  Runs-split_to k f h q = record {
    apply = λ src l. elim (Bool-cases (ltb (length src) k)) [
      | inl short ↦ absurd (ground arith)
      | inr long ↦ rw long (
          let e : length (drop k src) + k ≡ length src = omega (arith, length-drop k src) in
          rw e at ((q (take k src)).apply (drop k src) (omega (arith, length-drop k src))))
    ];
  }

  pub Runs-get_uint :
      (k : ℕ) (f : ℕ → Reader T)
      → k ≤ n
      → ((v : ℕ) → Runs (n - k) (f v) (λ l. Q (l + k)))
      → Runs n (get_uint k >>= f) Q
  unfolding get_uint
  Runs-get_uint k f h q = record {
    apply = λ src l.
        rw (and_then-map (split_to k src) from_be_bytes f) (
          (Runs-split_to k (λ bs. f (from_be_bytes bs)) h (λ bs. q (from_be_bytes bs))).apply src
            l);
  }

  pub Runs-advance :
      (k : ℕ) (m : Reader T) → k ≤ n → Runs (n - k) m (λ l. Q (l + k)) → Runs n (advance k >> m) Q
  unfolding advance
  Runs-advance k m h q = record {
    apply = λ src l.
        rw (and_then-map (split_to k src) (λ bs. tt) (λ _. m))
          ((Runs-split_to k (λ bs. m) h (λ bs. q)).apply src l);
  }

  pub Runs-bind :
      {U : Type 0} (m : Reader U) (f : U → Reader T) (P : ℕ → U → ℕ → Type 0)
      (R : U → ℕ → T → ℕ → Type 0)
      → Runs n m P
      → ((v : U) (l k : ℕ) → P l v k → Runs 0 (f v) (R v))
      → ((v : U) (w : T) (l k j : ℕ) → n ≤ l → P l v k → R v k w j → Q l w j)
      → Runs n (m >>= f) Q
  Runs-bind m f P R p q join = record {
    apply = λ src l.
        and_then-Post (m src) f (P (length src)) R (Q (length src)) (p.apply src l)
          (λ v k. q v (length src) k) (λ v w k j. join v w (length src) k j l);
  }

  -- What is read from a clone is then taken off the buffer itself, which holds what that needs.
  pub Runs-on_clone :
      {U : Type 0} (m : Reader U) (f : U → Reader T) (needed : U → ℕ) (Filled : U → Type 0)
      → Runs n m (λ l v _. (needed v ≤ l) × Filled v)
      → ((v : U) → Filled v → Runs (needed v) (f v) Q)
      → Runs n (on_clone m >>= f) Q
  unfolding on_clone
  Runs-on_clone m f needed Filled p q = record {
    apply = λ src l.
        clone-Post (m src) f src (λ v. (needed v ≤ length src) × Filled v) (Q (length src))
          (p.apply src l) (λ v k. (q v k.1).apply src k.0);
  }

pub Runs_mono :
    {T : Type 0} {n n' : ℕ} {m : Reader T} (P : ℕ → T → ℕ → Type 0) {Q : ℕ → T → ℕ → Type 0}
    → Runs n m P
    → n ≤ n'
    → ((l : ℕ) (v : T) (k : ℕ) → P l v k → Q l v k)
    → Runs n' m Q
Runs_mono {m} P {Q} p h weaken = record {
  apply = λ src l.
      Post-mono (m src) (P (length src)) (Q (length src)) (weaken (length src))
        (p.apply src (omega arith));
}
