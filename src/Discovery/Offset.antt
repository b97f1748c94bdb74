-- ===== src/Discovery/Offset.antt =====
-- When the offset that discovery/time_sync.py measures is small, described by the bytes of the
-- server's reply.
use dng_preflight.Base.{
  ℕ, ◌-◌, ◌≤◌, ◌≡◌, refl, sym, ap, ◌∙◌, subst, ◌↔◌, inl, inr, Option, none, some, List, [], ◌∷◌,
  length, take, drop, ok, ok-injective, arith, ltb, leb, Bool-cases, true, false, if◌then◌else◌,
}
use dng_preflight.Base.Int.{ℤ, pos, negsuc}
use dng_preflight.Base.Float.{Float}
use dng_preflight.Base.Arithmetic.{of_int, add, subtract, shift_down}
use dng_preflight.Validation.Rules.{IsSmall}
use dng_preflight.Discovery.Host.{Host, Exchange}
use dng_preflight.Discovery.Clock.{length-take-drop}
use dng_preflight.Discovery.Sntp.{
  ntp_packet, word, unpack, unix_seconds, server_time, transmit, offset_from, offset_of,
  query_ntp_offset,
}

-- The difference of two numbers.
abbrev pub minus : ℕ → ℕ → ℤ
minus a b = if leb b a then pos (a - b) else negsuc (b - a - 1)

-- The server's time, from its seconds since 1900 and its fraction, less the middle of the clock's
-- times before and after.
abbrev pub offset_at : (secs frac : ℕ) (before after : Float) → Float
offset_at secs frac before after =
    subtract (add (of_int (minus secs 2208988800)) (shift_down 32 (of_int (pos frac))))
      (shift_down 1 (add before after))

-- The offset that an exchange shows: the timestamp is in the bytes 40 to 47 of a whole reply.
abbrev pub IsCloseIn : Option Exchange → Type 0
IsCloseIn exchange =
    (x : Exchange) (a b c d e f g h : ℕ)
    → exchange ≡ some x
    → 48 ≤ length x.reply
    → take 8 (drop 40 x.reply) ≡ a ∷ b ∷ c ∷ d ∷ e ∷ f ∷ g ∷ h ∷ []
    → IsSmall (some (offset_at (word a b c d) (word e f g h) x.sent x.received))

-- An offset that the time server shows, if any, is at most 30 seconds.
abbrev pub IsClose : Host → Type 0
IsClose host = IsCloseIn (host.exchange ntp_packet "pool.ntp.org" 123)

short_reply : (n : ℕ) → ltb n 48 ≡ true → ¬ (48 ≤ n)
short_reply n h = ground arith

long_reply : (n : ℕ) → ltb n 48 ≡ false → 48 ≤ n
long_reply n h = ground arith

exchange_same : (x y : Exchange) → some x ≡ some y → x ≡ y
exchange_same x y h = cc h

-- Eight bytes.
eight :
    (bs : List ℕ)
    → length bs ≡ 8
    → (a : ℕ) × (b : ℕ) × (c : ℕ) × (d : ℕ) × (e : ℕ) × (f : ℕ) × (g : ℕ) × (h : ℕ) × (bs
        ≡ a ∷ b ∷ c ∷ d ∷ e ∷ f ∷ g ∷ h ∷ [])
eight (a ∷ b ∷ c ∷ d ∷ e ∷ f ∷ g ∷ h ∷ []) eq = (a, b, c, d, e, f, g, h, refl)
eight (a ∷ b ∷ c ∷ d ∷ e ∷ f ∷ g ∷ h ∷ i ∷ rest) eq = absurd (omega arith)
eight (a ∷ b ∷ c ∷ d ∷ e ∷ f ∷ g ∷ []) eq = absurd (omega arith)
eight (a ∷ b ∷ c ∷ d ∷ e ∷ f ∷ []) eq = absurd (omega arith)
eight (a ∷ b ∷ c ∷ d ∷ e ∷ []) eq = absurd (omega arith)
eight (a ∷ b ∷ c ∷ d ∷ []) eq = absurd (omega arith)
eight (a ∷ b ∷ c ∷ []) eq = absurd (omega arith)
eight (a ∷ b ∷ []) eq = absurd (omega arith)
eight (a ∷ []) eq = absurd (omega arith)
eight [] eq = absurd (omega arith)

offset_of-whole :
    (x : Exchange) (a b c d e f g h : ℕ)
    → 48 ≤ length x.reply
    → take 8 (drop 40 x.reply) ≡ a ∷ b ∷ c ∷ d ∷ e ∷ f ∷ g ∷ h ∷ []
    → offset_of (some x) ≡ ok (some (offset_at (word a b c d) (word e f g h) x.sent x.received))
unfolding offset_of unpack offset_from server_time unix_seconds
offset_of-whole x a b c d e f g h whole bytes =
    let long : ltb (length x.reply) 48 ≡ false = ground arith in rw (long, bytes)

offset_of-IsCloseIn_iff :
    (exchange : Option Exchange) (offset : Option Float)
    → offset_of exchange ≡ ok offset
    → IsSmall offset ↔ IsCloseIn exchange
unfolding offset_of
offset_of-IsCloseIn_iff none offset h = (
  (λ _ x a b c d e f g i found _ _. cc found),
  λ _. subst IsSmall (ok-injective none offset h) tt,
)
offset_of-IsCloseIn_iff (some x) offset h = elim (Bool-cases (ltb (length x.reply) 48)) [
  | inl short ↦ (
    (λ _ y a b c d e f g i found whole _.
        let long : 48 ≤ length x.reply =
          subst (λ z. 48 ≤ length z.reply) (sym (exchange_same x y found)) whole in
        absurd (short_reply (length x.reply) short long)),
    λ _. subst IsSmall (ok-injective none offset (rw short at h)) tt,
  )
  | inr long ↦ (
    (λ small y a b c d e f g i found whole bytes.
        let same = sym (exchange_same x y found) in
        let value = offset_of-whole y a b c d e f g i whole bytes in
        subst IsSmall
          (ok-injective offset _ (sym h ∙ ap (λ z. offset_of (some z)) (sym same) ∙ value)) small),
    λ close.
        let (a, b, c, d, e, f, g, i, bytes) =
          eight (transmit x.reply)
            (length-take-drop 40 8 x.reply (long_reply (length x.reply) long)) in
        let whole : 48 ≤ length x.reply = long_reply (length x.reply) long in
        let value = offset_of-whole x a b c d e f g i whole bytes in
        subst IsSmall (ok-injective _ offset (sym value ∙ h))
          (close x a b c d e f g i refl whole bytes),
  )
]

pub query_ntp_offset-IsClose_iff :
    (host : Host) (offset : Option Float)
    → query_ntp_offset host ≡ ok offset
    → IsSmall offset ↔ IsClose host
unfolding query_ntp_offset
query_ntp_offset-IsClose_iff host offset h =
    offset_of-IsCloseIn_iff (host.exchange ntp_packet "pool.ntp.org" 123) offset h
