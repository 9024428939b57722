-- ===== src/Tests/Packing.antt =====
-- fluent/msgpack.go and the packing side of fluent/server.go on small messages.
use fluent_agent_hydra.Prelude.{◌≡◌, refl, true, [], ◌∷◌, codes, big_endian}
use fluent_agent_hydra.Fluent.Value.{Time}
use fluent_agent_hydra.Fluent.Msgpack.{write_time, write_mp_string_head, to_msgpack_record_set}

-- fluent/timestamp_test.go and fluent/msgpack_test.go use this time.
abbrev ts : Time
ts = record { sec = 1417269412; nsec = 5 }

packed_time : write_time true ts ≡ 0xd7 ∷ 0 ∷ 0x54 ∷ 0x79 ∷ 0xd0 ∷ 0xa4 ∷ 0 ∷ 0 ∷ 0 ∷ 5 ∷ []
unfolding write_time big_endian
packed_time = refl

long_head : write_mp_string_head 300 ≡ 0xda ∷ 1 ∷ 44 ∷ []
unfolding write_mp_string_head big_endian
long_head = refl

packed_set :
    to_msgpack_record_set (codes "t") (codes "ab") ≡ 0x92 ∷ 0xa1 ∷ b't' ∷ 0xa2 ∷ b'a' ∷ b'b' ∷ []
unfolding to_msgpack_record_set write_mp_string_head
packed_set = refl
