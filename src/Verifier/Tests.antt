-- ===== src/Verifier/Tests.antt =====
-- Tests of the verifier, with a clock and a pool that keep two ticks.
use offst.Prelude.{ℕ, ◌≡◌, refl, List, [], ◌∷◌, some, arith}
use offst.Prelude.Dict.{get, insert, remove}
use offst.Crypto.{be_bytes, HashResult}
use offst.Route.Valid.{Occurs}
use offst.Ratchet.{Ratchet, update_pool, new_ratchet, tick_pool, tick_all, tick_ratchet, remove_all}
use offst.Verifier.{
  HashClock, SimpleVerifier, verify, verify_expansion_chain, first_recent, last_hashes,
  get_expansion, is_chain, tick_verifier, tick_clock, insert_tick_hash, keep_tick, pop_tick,
  hash_hashes, expansion_of, answer, with_result,
}
use offst.Verifier.Once.{
  Message, IsVerifier, verify_message, Passes, nothing, ticks, Refuses, named, accepted_once,
}
use offst.Verifier.Sound.{StaysSound, verifier-StaysSound}
use offst.Samples.{checksum}

-- The clock has ticked once.
abbrev clock : HashClock
clock = record {
  neighbor_hashes = [];
  last_ticks_max_len = 2;
  last_ticks = 1000 ∷ [];
  last_ticks_map = (1000, 5 ∷ []) ∷ [];
}

abbrev verifier : SimpleVerifier
verifier = record {
  hash_clock = clock;
  ratchet_pool = record { ratchets = []; ratchet_ticks_to_live = 2 };
}

-- Straight from a neighbor that has seen this tick.
abbrev message : Message
message = record { origin = 1000; chain = []; node = 1; session = 7; counter = 4 }

abbrev with_ticks : ℕ → Ratchet
with_ticks n = record { session_id = 7; counter = 4; ticks_to_live = 2; cur_ticks_to_live = n }

abbrev accepting : SimpleVerifier
accepting = record verifier {
  ratchet_pool = record { ratchets = (1, with_ticks 2) ∷ []; ratchet_ticks_to_live = 2 };
}

-- A tick later.
abbrev later : SimpleVerifier
later = record {
  hash_clock = record clock {
    last_ticks = 1000 ∷ 244 ∷ [];
    last_ticks_map = (1000, 5 ∷ []) ∷ (244, 3 ∷ []) ∷ [];
  };
  ratchet_pool = record { ratchets = (1, with_ticks 1) ∷ []; ratchet_ticks_to_live = 2 };
}

message_accepted : verify_message checksum message verifier ≡ some (some (5 ∷ []), accepting)
unfolding verify verify_expansion_chain is_chain first_recent last_hashes get_expansion answer
    update_pool new_ratchet insert
message_accepted = refl

ticked_once : tick_verifier checksum 3 accepting ≡ some ((244, []), later)
unfolding tick_verifier tick_clock insert_tick_hash keep_tick pop_tick hash_hashes expansion_of
    be_bytes with_result tick_pool tick_all tick_ratchet remove_all insert remove
ticked_once = refl

not_named : ¬ Occurs 244 (named message)
unfolding last_hashes
not_named = ground arith

known_tick :
    (h : HashResult) (e : List HashResult)
    → get h clock.last_ticks_map ≡ some e
    → Occurs h clock.last_ticks
known_tick h e g = ground arith

verifier-IsVerifier : IsVerifier verifier
verifier-IsVerifier = record {
  clock = record { positive = omega arith; bound = omega arith; known = known_tick };
  pool = tt;
  same = refl;
}

one_tick : Passes checksum message 1 accepting later
one_tick = ticks 3 244 [] not_named ticked_once nothing

accepted_once_example : Refuses checksum (verify_message checksum message later)
accepted_once_example =
    accepted_once checksum message 1 verifier accepting later (5 ∷ []) verifier-IsVerifier
      message_accepted one_tick

verifier-StaysSound_example :
    StaysSound (verify_message checksum message verifier)
    × StaysSound (tick_verifier checksum 3 verifier)
verifier-StaysSound_example = verifier-StaysSound checksum message 3 verifier verifier-IsVerifier
