-- ===== src/Discovery/Clock.antt =====
-- What `_query_ntp_offset` of discovery/time_sync.py reads from a server's clock.
use dng_preflight.Base.{
  ℕ, zero, suc, ◌+◌, ◌-◌, ◌*◌, ◌/◌, ◌%◌, ◌^◌, ◌≤◌, ◌<◌, ◌≡◌, refl, ap, ◌↔◌, false, Option, none,
  some, List, [], ◌∷◌, ◌++◌, length, take, drop, ok, map_result, arith, ltb, Bool-cases, inl, inr,
}
use dng_preflight.Base.Int.{pos}
use dng_preflight.Base.Float.{Float, finite}
use dng_preflight.Base.Arithmetic.{rounded, rounded-near, rounded_small}
use dng_preflight.Discovery.Host.{Host, Exchange}
use dng_preflight.Discovery.Sntp.{
  ntp_epoch_offset, word, unpack, unix_seconds, server_time, transmit, offset_from, offset_of,
  query_ntp_offset, ntp_packet, ntp_host, ntp_port,
}

pub length-take-drop : (n k : ℕ) (bs : List ℕ) → n + k ≤ length bs → length (take k (drop n bs)) ≡ k
length-take-drop zero zero bs h = refl
length-take-drop zero (suc k) [] h = absurd (omega arith)
length-take-drop zero (suc k) (b ∷ bs) h = ap suc (length-take-drop zero k bs (omega arith))
length-take-drop (suc n) k [] h = absurd (omega arith)
length-take-drop (suc n) k (b ∷ bs) h = length-take-drop n k bs (omega arith)

-- Eight bytes are unpacked.
unpack_eight : (bs : List ℕ) → length bs ≡ 8 → (stamp : ℕ × ℕ) × (unpack bs ≡ ok stamp)
unfolding unpack
unpack_eight (a ∷ b ∷ c ∷ d ∷ e ∷ f ∷ g ∷ h ∷ []) eq = (_, refl)
unpack_eight (a ∷ b ∷ c ∷ d ∷ e ∷ f ∷ g ∷ h ∷ i ∷ rest) eq = absurd (omega arith)
unpack_eight (a ∷ b ∷ c ∷ d ∷ e ∷ f ∷ g ∷ []) eq = absurd (omega arith)
unpack_eight (a ∷ b ∷ c ∷ d ∷ e ∷ f ∷ []) eq = absurd (omega arith)
unpack_eight (a ∷ b ∷ c ∷ d ∷ e ∷ []) eq = absurd (omega arith)
unpack_eight (a ∷ b ∷ c ∷ d ∷ []) eq = absurd (omega arith)
unpack_eight (a ∷ b ∷ c ∷ []) eq = absurd (omega arith)
unpack_eight (a ∷ b ∷ []) eq = absurd (omega arith)
unpack_eight (a ∷ []) eq = absurd (omega arith)
unpack_eight [] eq = absurd (omega arith)

offset_of-ok : (x : Option Exchange) → (offset : Option Float) × (offset_of x ≡ ok offset)
unfolding offset_of
offset_of-ok none = (none, refl)
offset_of-ok (some x) = elim (Bool-cases (ltb (length x.reply) 48)) [
  | inl short ↦ (none, rw short)
  | inr whole ↦
      let (stamp, read) =
        unpack_eight (transmit x.reply) (length-take-drop 40 8 x.reply (ground arith)) in
      (some (offset_from x.sent x.received stamp), rw (whole, read))
]

-- The query never raises.
pub query_ntp_offset-ok :
    (host : Host) → (offset : Option Float) × (query_ntp_offset host ≡ ok offset)
unfolding query_ntp_offset
query_ntp_offset-ok host = offset_of-ok (host.exchange ntp_packet ntp_host ntp_port)

-- The four low bytes of a number, the highest first.
abbrev pub bytes : ℕ → List ℕ
bytes n = (n / 0x1000000 % 256) ∷ (n / 0x10000 % 256) ∷ (n / 0x100 % 256) ∷ (n % 256) ∷ []

-- An NTP timestamp of Unix time `u + f / 2 ^ 32`: the seconds since 1900, in 32 bits.
abbrev pub timestamp : ℕ → ℕ → List ℕ
timestamp u f = bytes (u + ntp_epoch_offset) ++ bytes f

word-bytes :
    (n : ℕ)
    → word (n / 0x1000000 % 256) (n / 0x10000 % 256) (n / 0x100 % 256) (n % 256) ≡ n % 2 ^ 32
word-bytes n = omega arith

pub unpack-timestamp :
    (u f : ℕ) → unpack (timestamp u f) ≡ ok ((u + ntp_epoch_offset) % 2 ^ 32, f % 2 ^ 32)
unfolding unpack
unpack-timestamp u f = rw (word-bytes (u + ntp_epoch_offset), word-bytes f)

-- When the 32 bits overflow: 7 February 2036.
abbrev pub era_end : ℕ
era_end = 2 ^ 32 - ntp_epoch_offset

-- The seconds that are read from an NTP timestamp of the Unix second u are u exactly where u is
-- below 2^32 - 2208988800, in February 2036.
pub unix_seconds-era_iff :
    (u : ℕ) → (unix_seconds ((u + ntp_epoch_offset) % 2 ^ 32) ≡ pos u) ↔ (u < era_end)
unfolding unix_seconds
unix_seconds-era_iff u = ground arith

module _ (u f : ℕ) where
  server_time-sum :
      (secs : ℕ)
      → unix_seconds secs ≡ pos u
      → u < 2 ^ 53
      → f < 2 ^ 53
      → server_time (secs, f) ≡ finite false (rounded (u * 2 ^ 32 + f)) 32
  unfolding server_time
  server_time-sum secs e hu hf = rw (e, rounded_small u hu, rounded_small f hf)

  -- The time that is read from an NTP timestamp of the Unix time u + f / 2^32, before February
  -- 2036, differs from it by at most 2^9 / 2^32 seconds, after the rounding of floats.
  pub timestamp-near :
      u < era_end
      → f < 2 ^ 32
      → (m : ℕ) × (map_result server_time (unpack (timestamp u f)) ≡ ok (finite false m 32))
        × (m ≤ u * 2 ^ 32 + f + 2 ^ 9)
        × (u * 2 ^ 32 + f ≤ m + 2 ^ 9)
  timestamp-near hu hf =
      let fits : f % 2 ^ 32 ≡ f = omega arith in
      let near = rounded-near (u * 2 ^ 32 + f) 10 (omega arith) in
      (
        rounded (u * 2 ^ 32 + f),
        rw (unpack-timestamp u f, fits)
            (ap ok (
              server_time-sum ((u + ntp_epoch_offset) % 2 ^ 32) ((unix_seconds-era_iff u).1 hu)
                (omega arith) (omega arith))),
        omega arith,
        omega arith,
      )
