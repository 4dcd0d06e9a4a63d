-- ===== src/Rtsp/H264/Fragments.antt =====
-- The FU-A fragments that PackNAL makes of a NAL unit (librtsp/h264.go).
use ggmpeg.Prelude.{
  ℕ, zero, suc, ◌+◌, ◌-◌, ◌/◌, ◌%◌, ◌^◌, ◌≤◌, ◌<◌, ◌≡◌, sym, inl, inr, Bool, true, false, List, [],
  ◌∷◌, ◌++◌, arith, leb, ◌==◌, if◌then◌else◌, leb→le, Bool-cases, length, drop, length-take, Bytes,
  All,
}
use mathlib.Core.Path.{subst}
use ggmpeg.Rtsp.H264.{fragment_loop, fragment, pack_nal, default_mtu}

-- What a receiver joins: the payloads without their two header bytes.
unfoldable pub join_bodies : List Bytes → Bytes
join_bodies [] = []
join_bodies (p ∷ ps) = drop 2 p ++ join_bodies ps

abbrev pub IsWithin : ℕ → Bytes → Type 0
IsWithin mtu p = (0 < length p) × (length p ≤ mtu)

fragment_loop-IsWithin :
    (fuel : ℕ) (start : Bool) (frag_size nri nal_type : ℕ) (body : Bytes)
    → All (IsWithin (frag_size + 2)) (fragment_loop fuel start frag_size nri nal_type body)
unfolding fragment_loop
fragment_loop-IsWithin zero start frag_size nri nal_type body = tt
fragment_loop-IsWithin (suc fuel) start frag_size nri nal_type [] = tt
fragment_loop-IsWithin (suc fuel) start frag_size nri nal_type (b ∷ rest) = (
  omega (arith, length-take frag_size (b ∷ rest)),
  fragment_loop-IsWithin fuel false frag_size nri nal_type (drop frag_size (b ∷ rest)),
)

-- No payload that `PackNAL` returns is empty or longer than the MTU (1400 bytes where none is
-- given), on any NAL unit and any MTU.
pub pack_nal-IsWithin :
    (nal : Bytes) (mtu : ℕ)
    → All (IsWithin (if mtu == 0 then default_mtu else mtu)) (pack_nal nal mtu)
unfolding pack_nal fragment
pack_nal-IsWithin [] mtu = tt
pack_nal-IsWithin (hdr ∷ body) mtu = go (if mtu == 0 then default_mtu else mtu)
  where
    go :
        (m : ℕ)
        → All
            (IsWithin m)
            (if leb (length (hdr ∷ body)) m then (hdr ∷ body) ∷ [] else fragment (m - 2) hdr body)
    go m = elim (Bool-cases (leb (length (hdr ∷ body)) m)) [
      | inl e ↦ rw e ((omega arith, leb→le _ _ e), tt)
      | inr e ↦ rw e (elim (Bool-cases (m - 2 == 0)) [
        | inl z ↦ rw z tt
        | inr nz ↦ rw nz (
            let w : m ≡ m - 2 + 2 = ground arith in
            subst
              (λ (k : ℕ).
                All (IsWithin k) (
                  fragment_loop (length body) true (m - 2) (hdr / 2 ^ 5 % 2 ^ 2) (hdr % 2 ^ 5)
                    body))
              (sym w) (fragment_loop-IsWithin (length body) true (m - 2) _ _ body))
      ])
    ]
