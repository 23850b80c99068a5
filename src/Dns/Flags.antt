-- ===== src/Dns/Flags.antt =====
-- The flag methods of Header in internal/dns/message.go.
use km_resolv.Prelude.{ℕ, ◌%◌, ◌<◌, ◌≡◌, Bool, true, false, arith, nat_eq}
use km_resolv.Dns.{bit, set_bit, qr, rd, set_qr, set_ra, rcode, set_rcode}

-- SetQR and SetRA set their flag to what they are given, SetRcode the code to the low four bits,
-- and none of them changes QR, RD or the code where it is not its own. The flags stay below 2 ^ 16.
flag_setters :
    (f r : ℕ) (v : Bool)
    → f < 65536
    → (qr (set_qr f v) ≡ v)
      × (rd (set_qr f v) ≡ rd f)
      × (rcode (set_qr f v) ≡ rcode f)
      × (qr (set_ra f v) ≡ qr f)
      × (rd (set_ra f v) ≡ rd f)
      × (rcode (set_ra f v) ≡ rcode f)
      × (rcode (set_rcode f r) ≡ r % 16)
      × (qr (set_rcode f r) ≡ qr f)
      × (rd (set_rcode f r) ≡ rd f)
      × (set_qr f v < 65536)
      × (set_ra f v < 65536)
      × (set_rcode f r < 65536)
unfolding qr rd set_qr set_ra rcode set_rcode bit set_bit
flag_setters f r true lt = ground arith
flag_setters f r false lt = ground arith
