-- ===== src/Dash/Bits/Read.antt =====
-- The bit reader of libdash/dash.go at the codes of H.264.
use ggmpeg.Prelude.{
  ℕ, zero, suc, ◌+◌, ◌-◌, ◌*◌, ◌/◌, ◌%◌, ◌^◌, ◌≤◌, ◌<◌, ◌≡◌, refl, sym, ap, ◌∙◌, inl, inr, Bool,
  true, false, some, List, [], ◌∷◌, ◌++◌, append_assoc, arith, ltb, leb, ltb→lt, ltb-false→le,
  Bool-cases, length, drop, replicate, Bytes, at,
}
use mathlib.Core.Path.{subst}
use ggmpeg.Dash.Bits.Codes.{
  bits_of, bits_value, u, ue, log2_loop, bits_value-u, length-u, pow_suc, log2_bounds,
}
use ggmpeg.Dash.Bits.{
  BitReader, Action, ◌>>=◌, ◌>>◌, give, bits_loop, read_bits, read_uint, zeros_loop, ue_value,
  read_ue,
}

-- The bits that the reader has not read yet.
unfoldable pub rest_bits : BitReader → List ℕ
unfolding bits_of
rest_bits r = drop r.pos (bits_of r.buf)

drop_tail : (n : ℕ) (xs : List ℕ) (b : ℕ) (bs : List ℕ) → drop n xs ≡ b ∷ bs → drop (suc n) xs ≡ bs
drop_tail zero [] b bs h = cc
drop_tail zero (x ∷ xs) b bs h = cc
drop_tail (suc n) [] b bs h = cc
drop_tail (suc n) (x ∷ xs) b bs h = drop_tail n xs b bs h

-- The bit that the loop takes from its byte is the next one.
bit_at :
    (buf : Bytes) (p b : ℕ) (bs : List ℕ)
    → drop p (bits_of buf) ≡ b ∷ bs
    → (p / 8 < length buf) × (at buf (p / 8) / 2 ^ (7 - p % 8) % 2 ≡ b)
unfolding bits_of
bit_at [] zero b bs h = cc
bit_at [] (suc p) b bs h = cc
bit_at (x ∷ xs) zero b bs h = (omega arith, cc)
bit_at (x ∷ xs) (suc zero) b bs h = (omega arith, cc)
bit_at (x ∷ xs) (suc (suc zero)) b bs h = (omega arith, cc)
bit_at (x ∷ xs) (suc (suc (suc zero))) b bs h = (omega arith, cc)
bit_at (x ∷ xs) (suc (suc (suc (suc zero)))) b bs h = (omega arith, cc)
bit_at (x ∷ xs) (suc (suc (suc (suc (suc zero))))) b bs h = (omega arith, cc)
bit_at (x ∷ xs) (suc (suc (suc (suc (suc (suc zero)))))) b bs h = (omega arith, cc)
bit_at (x ∷ xs) (suc (suc (suc (suc (suc (suc (suc zero))))))) b bs h = (omega arith, cc)
bit_at (x ∷ xs) (suc (suc (suc (suc (suc (suc (suc (suc p)))))))) b bs h =
    let p8 = suc (suc (suc (suc (suc (suc (suc (suc p))))))) in
    let q : p8 / 8 ≡ suc (p / 8) = omega arith in
    let m : p8 % 8 ≡ p % 8 = omega arith in
    let ih : (p / 8 < length xs) × (at xs (p / 8) / 2 ^ (7 - p % 8) % 2 ≡ b) = bit_at xs p b bs h in
    rw (q, m) (omega (arith, ih.0), ih.1)

-- The action reads exactly these bits, whatever comes behind them, and returns this.
abbrev pub ReadsAt : {A : Type 0} → Action A → List ℕ → A → Type 0
ReadsAt m bs a =
    (r : BitReader) (tail : List ℕ)
    → rest_bits r ≡ bs ++ tail
    → ((m r).0 ≡ a) × (rest_bits (m r).1 ≡ tail)

pub record Reads {A : Type 0} (m : Action A) (bs : List ℕ) (a : A) : Type 0 where
  pub run : ReadsAt m bs a

pub give-Reads : {A : Type 0} (a : A) → Reads (give a) [] a
unfolding give
give-Reads a = record { run = λ r tail h. (refl, h) }

pub >>=-Reads :
    {A B : Type 0} {m : Action A} (f : A → Action B) {bs cs : List ℕ} {a : A} {b : B}
    → Reads m bs a
    → Reads (f a) cs b
    → Reads (m >>= f) (bs ++ cs) b
unfolding ◌>>=◌
>>=-Reads {A} {m} f {bs} {cs} {a} {b} hm hf = record {
  run = λ r tail h.
      let split : rest_bits r ≡ bs ++ (cs ++ tail) = h ∙ append_assoc bs cs tail in
      let first : ((m r).0 ≡ a) × (rest_bits (m r).1 ≡ cs ++ tail) = hm.run r (cs ++ tail) split in
      let last : ((f a (m r).1).0 ≡ b) × (rest_bits (f a (m r).1).1 ≡ tail) =
        hf.run (m r).1 tail first.1 in
      subst (λ (x : A). ((f x (m r).1).0 ≡ b) × (rest_bits (f x (m r).1).1 ≡ tail)) (sym first.0)
        last;
}

pub >>-Reads :
    {A B : Type 0} {m : Action A} {k : Action B} {bs cs : List ℕ} {a : A} {b : B}
    → Reads m bs a
    → Reads k cs b
    → Reads (m >> k) (bs ++ cs) b
unfolding ◌>>◌
>>-Reads {m} {k} {bs} {cs} hm hk = record {
  run = λ r tail h. hk.run (m r).1 tail (hm.run r (cs ++ tail) (h ∙ append_assoc bs cs tail)).1;
}

-- The last action of a block, and what the block gives.
pub then_give-Reads :
    {A B : Type 0} {m : Action A} {bs : List ℕ} {a : A} (g : A → B)
    → Reads m bs a
    → Reads (m >>= λ x. give (g x)) bs (g a)
unfolding ◌>>=◌ give
then_give-Reads g hm = record { run = λ r tail h. (ap g (hm.run r tail h).0, (hm.run r tail h).1) }

bits_value-mod :
    (v : ℕ) (bs : List ℕ) → bits_value (v % 2 ^ 32) bs % 2 ^ 32 ≡ bits_value v bs % 2 ^ 32
unfolding bits_value
bits_value-mod v [] = omega arith
bits_value-mod v (b ∷ bs) =
    sym (bits_value-mod (v % 2 ^ 32 * 2 + b) bs)
    ∙ ap (λ k. bits_value k bs % 2 ^ 32) (omega arith)
    ∙ bits_value-mod (v * 2 + b) bs

bits_loop-Reads :
    (bs : List ℕ) (v : ℕ)
    → v < 2 ^ 32
    → ReadsAt (bits_loop (length bs) v) bs (bits_value v bs % 2 ^ 32, true)
unfolding bits_loop bits_value rest_bits
bits_loop-Reads [] v hv r tail h =
    (let e : v ≡ v % 2 ^ 32 = omega arith in ap (λ (k : ℕ). (k, true)) e, h)
bits_loop-Reads (b ∷ bs) v hv r tail h =
    let here : (r.pos / 8 < length r.buf) × (at r.buf (r.pos / 8) / 2 ^ (7 - r.pos % 8) % 2 ≡ b) =
      bit_at r.buf r.pos b (bs ++ tail) h in
    let more : leb (length r.buf) (r.pos / 8) ≡ false = ground (arith, here.0) in
    let next : r.pos + 1 ≡ suc r.pos = omega arith in
    let behind : rest_bits (record r { pos = r.pos + 1 }) ≡ bs ++ tail =
      rw next (drop_tail r.pos (bits_of r.buf) b (bs ++ tail) h) in
    let ih : ReadsAt (bits_loop (length bs) ((v * 2 + b) % 2 ^ 32)) bs
        (bits_value ((v * 2 + b) % 2 ^ 32) bs % 2 ^ 32, true) =
      bits_loop-Reads bs ((v * 2 + b) % 2 ^ 32) (omega arith) in
    rw (more, here.1, sym (bits_value-mod (v * 2 + b) bs))
      (ih (record r { pos = r.pos + 1 }) tail behind)

pub read_bits-Reads :
    (bs : List ℕ) → ReadsAt (read_bits (length bs)) bs (bits_value 0 bs % 2 ^ 32, true)
unfolding read_bits
read_bits-Reads bs = bits_loop-Reads bs 0 (omega arith)

read_uint-at : (n x : ℕ) → x < 2 ^ n → x < 2 ^ 32 → ReadsAt (read_uint n) (u n x) x
unfolding read_uint ◌>>=◌ give
read_uint-at n x hn h32 r tail h =
    let all : ((read_bits n r).0 ≡ (bits_value 0 (u n x) % 2 ^ 32, true))
        × (rest_bits (read_bits n r).1 ≡ tail) =
      subst (λ (k : ℕ). ReadsAt (read_bits k) (u n x) (bits_value 0 (u n x) % 2 ^ 32, true))
        (length-u n x) (read_bits-Reads (u n x)) r tail h in
    (ap (λ (p : ℕ × Bool). p.0) all.0 ∙ omega (arith, bits_value-u n x hn), all.1)

pub read_uint-u : (n x : ℕ) → x < 2 ^ n → x < 2 ^ 32 → Reads (read_uint n) (u n x) x
read_uint-u n x hn h32 = record { run = read_uint-at n x hn h32 }

zeros_loop-Reads :
    (k fuel leading : ℕ)
    → k < fuel
    → leading + k ≤ 32
    → ReadsAt (zeros_loop fuel leading) (replicate k 0 ++ 1 ∷ []) (some (leading + k))
unfolding zeros_loop bits_value
zeros_loop-Reads k zero leading hf hz r tail h = absurd (omega arith)
zeros_loop-Reads zero (suc fuel) leading hf hz r tail h =
    let one : ((read_bits 1 r).0 ≡ (1, true)) × (rest_bits (read_bits 1 r).1 ≡ tail) =
      read_bits-Reads (1 ∷ []) r tail h in
    let e : leading ≡ leading + 0 = omega arith in rw (one.0) (ap some e, one.1)
zeros_loop-Reads (suc k) (suc fuel) leading hf hz r tail h =
    let nil : ((read_bits 1 r).0 ≡ (0, true))
        × (rest_bits (read_bits 1 r).1 ≡ (replicate k 0 ++ 1 ∷ []) ++ tail) =
      read_bits-Reads (0 ∷ []) r ((replicate k 0 ++ 1 ∷ []) ++ tail) h in
    let room : ltb 32 (leading + 1) ≡ false = ground arith in
    let ih : ((zeros_loop fuel (leading + 1) (read_bits 1 r).1).0 ≡ some (leading + 1 + k))
        × (rest_bits (zeros_loop fuel (leading + 1) (read_bits 1 r).1).1 ≡ tail) =
      zeros_loop-Reads k fuel (leading + 1) (omega arith) (omega arith) (read_bits 1 r).1 tail
        nil.1 in
    let e : leading + 1 + k ≡ leading + suc k = omega arith in
    rw (nil.0, room) (ih.0 ∙ ap some e, ih.1)

zeros_first : (k : ℕ) → k < 32 → ReadsAt (zeros_loop 33 0) (replicate k 0 ++ 1 ∷ []) (some k)
zeros_first k hk r tail h =
    let zs : ((zeros_loop 33 0 r).0 ≡ some (0 + k)) × (rest_bits (zeros_loop 33 0 r).1 ≡ tail) =
      zeros_loop-Reads k 33 0 (omega arith) (omega arith) r tail h in
    let e : 0 + k ≡ k = omega arith in (zs.0 ∙ ap some e, zs.1)

pow_le : (a b : ℕ) → 2 ^ a ≤ 2 ^ (b + a)
pow_le a zero = let e : 0 + a ≡ a = omega arith in rw e (omega arith)
pow_le a (suc b) =
    let e : suc b + a ≡ suc (b + a) = omega arith in
    rw e (omega (arith, pow_le a b, pow_suc (b + a)))

below_32 : (k : ℕ) → 2 ^ k < 2 ^ 32 → k < 32
below_32 k h = elim (Bool-cases (ltb k 32)) [
  | inl e ↦ ltb→lt k 32 e
  | inr e ↦
      let big : 32 ≤ k = ltb-false→le k 32 e in
      let shape : k - 32 + 32 ≡ k = omega arith in
      let low : 2 ^ 32 ≤ 2 ^ k = subst (λ (j : ℕ). 2 ^ 32 ≤ 2 ^ j) shape (pow_le 32 (k - 32)) in
      absurd (omega arith)
]

ue_value-Reads :
    (k x : ℕ) → k < 32 → x < 2 ^ k → ReadsAt (ue_value (some k)) (u k x) (2 ^ k - 1 + x)
unfolding ue_value u
ue_value-Reads zero x hk hx r tail h = let e : x ≡ 0 = omega arith in rw e (refl, h)
ue_value-Reads (suc k) x hk hx r tail h =
    let shape : 31 - suc k + suc (suc k) ≡ 32 = omega arith in
    let high : 2 ^ suc (suc k) ≤ 2 ^ 32 =
      subst (λ (j : ℕ). 2 ^ suc (suc k) ≤ 2 ^ j) shape (pow_le (suc (suc k)) (31 - suc k)) in
    let extra : ((read_uint (suc k) r).0 ≡ x) × (rest_bits (read_uint (suc k) r).1 ≡ tail) =
      read_uint-at (suc k) x hx (omega (arith, pow_suc (suc k))) r tail h in
    let some_zeros : ltb 0 (suc k) ≡ true = ground arith in
    let sum : ((2 ^ suc k + 2 ^ 32 - 1) % 2 ^ 32 + x) % 2 ^ 32 ≡ 2 ^ suc k - 1 + x =
      omega (arith, pow_suc (suc k), pow_le 0 (suc k)) in
    rw some_zeros (rw (extra.0) sum, extra.1)

read_ue-at : (v : ℕ) → v + 1 < 2 ^ 32 → ReadsAt read_ue (ue v) v
unfolding read_ue ue
read_ue-at v hv r tail h =
    let k = log2_loop (v + 1) (v + 1) in
    let x = v + 1 - 2 ^ k in
    let bounds : (2 ^ k ≤ v + 1) × (v + 1 < 2 ^ suc k) =
      log2_bounds (v + 1) (v + 1) (omega arith) (omega arith) in
    let small : k < 32 = below_32 k (omega arith) in
    let both : Reads read_ue ((replicate k 0 ++ 1 ∷ []) ++ u k x) (2 ^ k - 1 + x) =
      >>=-Reads ue_value (record { run = zeros_first k small })
        (record { run = ue_value-Reads k x small (omega (arith, pow_suc k)) }) in
    let split : rest_bits r ≡ ((replicate k 0 ++ 1 ∷ []) ++ u k x) ++ tail =
      h ∙ ap (λ (l : List ℕ). l ++ tail) (sym (append_assoc (replicate k 0) (1 ∷ []) (u k x))) in
    let done : ((read_ue r).0 ≡ 2 ^ k - 1 + x) × (rest_bits (read_ue r).1 ≡ tail) =
      both.run r tail split in
    let value : 2 ^ k - 1 + x ≡ v = omega (arith, pow_le 0 k) in (done.0 ∙ value, done.1)

-- The reader takes the code of a number for that number, and nothing behind it.
pub read_ue-ue : (v : ℕ) → v + 1 < 2 ^ 32 → Reads read_ue (ue v) v
read_ue-ue v hv = record { run = read_ue-at v hv }

zeros_loop-fuel :
    (f extra leading : ℕ) (r : BitReader)
    → leading + f ≡ 33
    → 0 < f
    → zeros_loop (f + extra) leading r ≡ zeros_loop f leading r
unfolding zeros_loop
zeros_loop-fuel zero extra leading r hf hp = absurd (omega arith)
zeros_loop-fuel (suc f) extra leading r hf hp =
    let e : suc f + extra ≡ suc (f + extra) = omega arith in
    rw e (elim (Bool-cases (ltb 32 (leading + 1))) [
      | inl last ↦ rw last refl
      | inr more ↦
          let low : leading + 1 ≤ 32 = ltb-false→le 32 (leading + 1) more in
          rw (zeros_loop-fuel f extra (leading + 1) (read_bits 1 r).1 (omega arith) (omega arith))
            refl
    ])

-- The loop that counts zeros ends before its fuel does: with more than 33 rounds it does the same,
-- for a reader at any place, also at the end of its bytes.
pub zeros_loop-enough :
    (extra : ℕ) (r : BitReader) → zeros_loop (33 + extra) 0 r ≡ zeros_loop 33 0 r
zeros_loop-enough extra r = zeros_loop-fuel 33 extra 0 r (omega arith) (omega arith)
