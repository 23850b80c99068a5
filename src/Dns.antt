-- ===== src/Dns.antt =====
-- internal/dns/message.go: the constants, the header's flags and the types of a message. A byte is
-- a number below 256, a uint16 a number below 65536, and a nil slice is the empty list.
pub mod Name
pub mod Parse
pub mod Pack
pub mod Flags
mod Tests
use km_resolv.Prelude.{
  ℕ, ◌+◌, ◌-◌, ◌/◌, ◌%◌, ◌^◌, Bool, List, [], Text, ◌==◌, nat_eq, if◌then◌else◌,
}

abbrev pub type_a : ℕ
type_a = 1

abbrev pub type_ns : ℕ
type_ns = 2

abbrev pub type_cname : ℕ
type_cname = 5

abbrev pub type_ptr : ℕ
type_ptr = 12

abbrev pub type_mx : ℕ
type_mx = 15

abbrev pub type_aaaa : ℕ
type_aaaa = 28

abbrev pub class_in : ℕ
class_in = 1

abbrev pub rcode_no_error : ℕ
rcode_no_error = 0

abbrev pub rcode_serv_fail : ℕ
rcode_serv_fail = 2

abbrev pub rcode_nx_domain : ℕ
rcode_nx_domain = 3

abbrev pub rcode_refused : ℕ
rcode_refused = 5

pub record Header : Type 0 where
  pub id : ℕ
  pub flags : ℕ
  pub qd_count : ℕ
  pub an_count : ℕ
  pub ns_count : ℕ
  pub ar_count : ℕ

pub record Question : Type 0 where
  pub name : Text
  pub type : ℕ
  pub class : ℕ

pub record Rr : Type 0 where
  pub name : Text
  pub type : ℕ
  pub class : ℕ
  pub ttl : ℕ
  pub rdata : Text
  pub offset : ℕ

pub record Message : Type 0 where
  pub header : Header
  pub questions : List Question
  pub answers : List Rr
  pub authority : List Rr
  pub additional : List Rr
  pub raw : Text

-- f & (1 << bit) != 0
unfoldable pub bit : ℕ → ℕ → Bool
bit f n = f / 2 ^ n % 2 == 1

-- f | (1 << bit), or f &^ (1 << bit)
unfoldable pub set_bit : ℕ → ℕ → Bool → ℕ
unfolding bit
set_bit f n v = if v then (if bit f n then f else f + 2 ^ n) else (if bit f n then f - 2 ^ n else f)

unfoldable pub qr : ℕ → Bool
unfolding bit
qr f = bit f 15

unfoldable pub rd : ℕ → Bool
unfolding bit
rd f = bit f 8

unfoldable pub set_qr : ℕ → Bool → ℕ
unfolding set_bit
set_qr f v = set_bit f 15 v

unfoldable pub set_aa : ℕ → Bool → ℕ
unfolding set_bit
set_aa f v = set_bit f 10 v

unfoldable pub set_rd : ℕ → Bool → ℕ
unfolding set_bit
set_rd f v = set_bit f 8 v

unfoldable pub set_ra : ℕ → Bool → ℕ
unfolding set_bit
set_ra f v = set_bit f 7 v

unfoldable pub set_ad : ℕ → Bool → ℕ
unfolding set_bit
set_ad f v = set_bit f 5 v

-- Flags & 0x000F
unfoldable pub rcode : ℕ → ℕ
rcode f = f % 16

-- (Flags &^ 0x000F) | (r & 0x000F)
unfoldable pub set_rcode : ℕ → ℕ → ℕ
set_rcode f r = f - f % 16 + r % 16

abbrev pub empty_header : Header
empty_header = record { id = 0; flags = 0; qd_count = 0; an_count = 0; ns_count = 0; ar_count = 0 }

-- &dns.Message{}
abbrev pub empty_message : Message
empty_message = record {
  header = empty_header;
  questions = [];
  answers = [];
  authority = [];
  additional = [];
  raw = [];
}
