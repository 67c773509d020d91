-- ===== src/Tests/Worlds.antt =====
-- The choice of a world at concrete answers.
use tibia_login_orig.Base.{
  ℕ, ◌≡◌, refl, true, some, List, [], ◌∷◌, ◌++◌, replicate, pos, add_int, load, store,
}
use tibia_login_orig.ByteOrder.{read_u16_le, read_u32_le}
use tibia_login_orig.Utf8.{
  latin1_to_utf8, utf8_loop, utf8_encode_one, utf8_encoded_size, sequence_bytes,
}
use tibia_login_orig.Reader.{
  BufferReader, buffer_reader, read_u8, read_u16, read_u32, read_string, read_length, read_text,
  get, load_at,
}
use tibia_login_orig.Query.Requests.{WorldInfo, no_world, read_world, choose_world}
use tibia_login_orig.Query.Requests.Worlds.{read_worlds, IsChosen, choose_world-IsChosen}

-- A world with a name of a letter, and so many players.
abbrev world_bytes : ℕ → ℕ → List ℕ
world_bytes letter players = 1 ∷ 0 ∷ letter ∷ 0 ∷ players ∷ 0 ∷ 100 ∷ 0 ∷ 9 ∷ 0 ∷ replicate 12 0

abbrev world_of : ℕ → ℕ → WorldInfo
world_of letter players = record no_world {
  name = letter ∷ replicate 29 0;
  num_players = players;
  max_players = 100;
  online_peak = 9;
}

abbrev answer : BufferReader
answer = buffer_reader (world_bytes b'A' 5 ++ world_bytes b'B' 7) 44

two_worlds :
    read_worlds 2 answer
    ≡ some (world_of b'A' 5 ∷ world_of b'B' 7 ∷ [], record answer { position = pos 44 })
unfolding read_worlds read_world read_string read_length read_text read_u8 read_u16 read_u32 get
    load_at add_int load read_u16_le latin1_to_utf8 utf8_loop utf8_encode_one utf8_encoded_size
    store sequence_bytes read_u32_le
two_worlds = refl

choose_world-IsChosen_example :
    (world : WorldInfo) × (choose_world 2 [] true no_world answer ≡ some world)
    × IsChosen [] (world_of b'A' 5 ∷ world_of b'B' 7 ∷ []) world
choose_world-IsChosen_example =
    choose_world-IsChosen 2 [] answer (record answer { position = pos 44 })
      (world_of b'A' 5 ∷ world_of b'B' 7 ∷ []) two_worlds
