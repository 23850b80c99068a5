-- ===== src/Server/Handle/Shared.antt =====
-- The message that joined calls of resolve share: handleQuery writes into it before it packs it. Each
-- of its assignments is one step, and so is the reading of the message by Pack.
use km_resolv.Prelude.{ℕ, ◌≡◌, true, false, List, [], ◌∷◌}
use km_resolv.Dns.{Question, Message, set_qr, set_ra, set_aa}

-- One assignment of handleQuery into the message, with the request that it is for.
pub data Write : Type 0 where
  write_id : Message → Write
  write_qr : Message → Write
  write_ra : Message → Write
  write_aa : Message → Write
  write_questions : Message → Write

abbrev with_flags : (ℕ → ℕ) → Message → Message
with_flags set m = record m { header = record m.header { flags = set m.header.flags } }

unfoldable pub write : Write → Message → Message
write (write_id req) m = record m { header = record m.header { id = req.header.id } }
write (write_qr req) m = with_flags (λ f. set_qr f true) m
write (write_ra req) m = with_flags (λ f. set_ra f true) m
write (write_aa req) m = with_flags (λ f. set_aa f false) m
write (write_questions req) m = record m { questions = req.questions }

-- what one call of handleQuery writes, in its order
abbrev pub writes_of : Message → List Write
writes_of req = write_id req ∷ write_qr req ∷ write_ra req ∷ write_aa req ∷ write_questions req ∷ []

-- the shared message after assignments of any calls, in the order that they happen in
unfoldable pub write_all : List Write → Message → Message
write_all [] m = m
write_all (w ∷ ws) m = write_all ws (write w m)

-- the ID that was written last
unfoldable pub last_id : ℕ → List Write → ℕ
last_id n [] = n
last_id n (write_id req ∷ ws) = last_id req.header.id ws
last_id n (write_qr req ∷ ws) = last_id n ws
last_id n (write_ra req ∷ ws) = last_id n ws
last_id n (write_aa req ∷ ws) = last_id n ws
last_id n (write_questions req ∷ ws) = last_id n ws

-- the questions that were written last
unfoldable pub last_questions : List Question → List Write → List Question
last_questions qs [] = qs
last_questions qs (write_id req ∷ ws) = last_questions qs ws
last_questions qs (write_qr req ∷ ws) = last_questions qs ws
last_questions qs (write_ra req ∷ ws) = last_questions qs ws
last_questions qs (write_aa req ∷ ws) = last_questions qs ws
last_questions qs (write_questions req ∷ ws) = last_questions req.questions ws

-- The sections that no call writes.
abbrev pub SameRecords : Message → Message → Type 0
SameRecords m m' =
    (m.answers ≡ m'.answers) × (m.authority ≡ m'.authority) × (m.additional ≡ m'.additional)
