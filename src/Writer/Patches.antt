-- ===== src/Writer/Patches.antt =====
-- `rewrite_u16` and `insert_u32` of src/common/buffer_writer.cpp, which change what was written.
use tibia_login_orig.Base.{
  ℕ, ◌+◌, ◌-◌, ◌≤◌, ◌<◌, ◌≡◌, refl, sym, ap, ap₂, ◌∙◌, some, ◌++◌, le→leb, le→ltb, length,
  length-take, length-drop, take, drop, drop-append, store_fits, load_fits, overwrite,
  length-overwrite, take-overwrite, arith, ◌⊎◌,
}
use tibia_login_orig.Base.Slices.{take-take, drop-take, take-append_front, take-overwrite_inside}
use tibia_login_orig.ByteOrder
use tibia_login_orig.Writer.{BufferWriter, rewrite_u16, insert_u32}
use tibia_login_orig.Writer.Laws.{IsSound, written}

-- Inside what was written, two bytes are replaced and nothing else changes.
pub rewrite_u16_lem :
    (offset value : ℕ) (w : BufferWriter)
    → IsSound w
    → w.position ≤ w.size
    → offset + 2 ≤ w.position
    → (w' : BufferWriter) × (rewrite_u16 offset value w ≡ some w')
      × (written w' ≡ overwrite (written w) offset (ByteOrder.write_u16_le value))
      × (w'.position ≡ w.position)
      × (w'.size ≡ w.size)
      × (length w'.buffer ≡ length w.buffer)
unfolding rewrite_u16 ByteOrder.write_u16_le
rewrite_u16_lem offset value w s fits h =
    let bytes = ByteOrder.write_u16_le value in
    (
      record w { buffer = overwrite w.buffer offset bytes },
      rw
          (
            le→leb (offset + 2) w.position h,
            le→ltb w.size w.position fits,
            store_fits w.buffer offset bytes (omega arith),
          )
          refl,
      take-overwrite_inside w.buffer offset w.position bytes h (omega arith),
      refl,
      refl,
      length-overwrite w.buffer offset bytes (omega arith),
    )

-- Where it may not rewrite, it changes nothing.
pub rewrite_u16_refused :
    (offset value : ℕ) (w : BufferWriter)
    → (w.size < w.position) ⊎ (w.position < offset + 2)
    → rewrite_u16 offset value w ≡ some w
unfolding rewrite_u16
rewrite_u16_refused offset value w h = ground arith

-- With room for it, four bytes go in at the offset, and what stood behind it moves up.
pub insert_u32_lem :
    (offset value : ℕ) (w : BufferWriter)
    → IsSound w
    → offset ≤ w.position
    → w.position + 4 ≤ w.size
    → (w' : BufferWriter) × (insert_u32 offset value w ≡ some w')
      × (written w'
          ≡ take offset (written w) ++ (ByteOrder.write_u32_le value ++ drop offset (written w)))
      × (w'.position ≡ w.position + 4)
      × (w'.size ≡ w.size)
      × (length w'.buffer ≡ length w.buffer)
unfolding insert_u32 ByteOrder.write_u32_le
insert_u32_lem offset value w s h room =
    let bytes = ByteOrder.write_u32_le value in
    let moved = take (w.position - offset) (drop offset w.buffer) in
    let size : length moved ≡ w.position - offset = omega (
      arith,
      length-take (w.position - offset) (drop offset w.buffer),
      length-drop offset w.buffer,
    ) in
    let shifted = overwrite w.buffer (offset + 4) moved in
    let same : length shifted ≡ length w.buffer =
      length-overwrite w.buffer (offset + 4) moved (omega (arith, size)) in
    let front : length (take (offset + 4) w.buffer) ≡ offset + 4 =
      omega (arith, length-take (offset + 4) w.buffer) in
    (
      record w { buffer = overwrite shifted offset bytes; position = w.position + 4 },
      rw
          (
            le→leb offset w.position h,
            le→leb (w.position + 4) w.size room,
            load_fits w.buffer offset (w.position - offset) (omega arith),
            store_fits w.buffer (offset + 4) moved (omega (arith, size)),
            store_fits shifted offset bytes (omega (arith, same)),
          )
          refl,
      take-overwrite_inside shifted offset (w.position + 4) bytes (omega arith)
            (omega (arith, same))
          ∙ ap (λ t. overwrite t offset bytes)
              (take-overwrite w.buffer (offset + 4) moved (omega (arith, size)) (omega arith))
          ∙ ap₂ (λ t u. t ++ (bytes ++ u))
              (take-append_front offset (take (offset + 4) w.buffer) moved (omega (arith, front))
                ∙ take-take offset (offset + 4) w.buffer (omega arith)
                ∙ sym (take-take offset w.position w.buffer h))
              (drop-append (offset + 4) (take (offset + 4) w.buffer) moved front
                ∙ sym (drop-take offset w.position w.buffer)),
      refl,
      refl,
      length-overwrite shifted offset bytes (omega (arith, same)) ∙ same,
    )
