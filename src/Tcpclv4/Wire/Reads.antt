-- ===== src/Tcpclv4/Wire/Reads.antt =====
-- What a reader makes of the octets that a writer appended.
use hardy.Prelude.{
  ℕ, ◌+◌, ◌^◌, ◌≤◌, ◌<◌, ◌≡◌, refl, sym, List, [], ◌∷◌, ◌++◌, arith, length, length-append,
  drop-append_length, take-append_length,
}
use mathlib.Core.List.{append_assoc, append-nil}
use hardy.Cbor.Bytes.{to_be_bytes, from_be_bytes, length-to_be_bytes, from_be_bytes-to_be_bytes}
use hardy.Tcpclv4.Wire.{
  done, Reader, ◌>>=◌, ◌>>◌, return, need, split_to, advance, get_uint, on_clone,
}

-- `m` takes the bytes `bs` and returns `v`, where the bytes `ahead` come behind them.
pub record Reads {T : Type 0} (m : Reader T) (bs ahead : List ℕ) (v : T) : Type 0 where
  pub apply : (rest : List ℕ) → m (bs ++ (ahead ++ rest)) ≡ (done v, ahead ++ rest)

pub Reads-bind :
    {T U : Type 0} {m : Reader T} (f : T → Reader U) {bs cs ahead : List ℕ} {v : T} {w : U}
    → Reads m bs (cs ++ ahead) v
    → Reads (f v) cs ahead w
    → Reads (m >>= f) (bs ++ cs) ahead w
Reads-bind f {bs} {cs} {ahead} p q = record {
  apply = λ rest.
      rw (append_assoc bs cs (ahead ++ rest), ← append_assoc cs ahead rest, p.apply rest)
        (rw (append_assoc cs ahead rest) (q.apply rest));
}

pub Reads-return : {T : Type 0} {v : T} {ahead : List ℕ} → Reads (return v) [] ahead v
Reads-return = record { apply = λ rest. refl }

-- The last reader of a chain
pub Reads-bind_last :
    {T U : Type 0} {m : Reader T} (f : T → Reader U) {bs ahead : List ℕ} {v : T} {w : U}
    → Reads m bs ahead v
    → Reads (f v) [] ahead w
    → Reads (m >>= f) bs ahead w
Reads-bind_last f {bs} p q = rw append-nil at (Reads-bind f {bs = bs} {cs = []} p q)

pub Reads-need :
    {T : Type 0} {n : ℕ} {m : Reader T} {bs ahead : List ℕ} {v : T}
    → n ≤ length bs + length ahead
    → Reads m bs ahead v
    → Reads (need n >> m) bs ahead v
unfolding need
Reads-need {bs} {ahead} h p = record {
  apply = λ rest.
      ground (arith, p.apply rest, length-append bs (ahead ++ rest), length-append ahead rest);
}

pub Reads-split_to : {bs ahead : List ℕ} {n : ℕ} → n ≡ length bs → Reads (split_to n) bs ahead bs
unfolding split_to
Reads-split_to {bs} {ahead} e = record {
  apply = λ rest. rw e (
      ground (
        arith,
        length-append bs (ahead ++ rest),
        take-append_length bs (ahead ++ rest),
        drop-append_length bs (ahead ++ rest),
      ));
}

pub Reads-get_uint :
    (n v : ℕ) {ahead : List ℕ} → v < 256 ^ n → Reads (get_uint n) (to_be_bytes n v) ahead v
unfolding get_uint
Reads-get_uint n v {ahead} h = record {
  apply = λ rest.
      rw ((Reads-split_to (sym (length-to_be_bytes n v))).apply rest)
        (rw (from_be_bytes-to_be_bytes n v h));
}

-- One byte
pub Reads-get_u8 : {b : ℕ} {ahead : List ℕ} → Reads (get_uint 1) (b ∷ []) ahead b
unfolding get_uint split_to from_be_bytes
Reads-get_u8 = record { apply = λ rest. ground arith }

pub Reads-advance : {bs ahead : List ℕ} {n : ℕ} → n ≡ length bs → Reads (advance n) bs ahead tt
unfolding advance
Reads-advance e = record { apply = λ rest. rw ((Reads-split_to e).apply rest) }

-- What is read from a clone is then taken off the buffer itself.
pub Reads-on_clone :
    {T U : Type 0} {m : Reader T} (f : T → Reader U) {bs ahead : List ℕ} {w : U}
    (cs behind : List ℕ) (v : T)
    → bs ++ ahead ≡ cs ++ behind
    → Reads m cs behind v
    → Reads (f v) bs ahead w
    → Reads (on_clone m >>= f) bs ahead w
unfolding on_clone
Reads-on_clone {m} f {bs} {ahead} cs behind v e p q = record {
  apply = λ rest. rw (found rest) (q.apply rest);
}
  where
    found : (rest : List ℕ) → m (bs ++ (ahead ++ rest)) ≡ (done v, behind ++ rest)
    found rest = rw (← append_assoc bs ahead rest, e, append_assoc cs behind rest) (p.apply rest)
