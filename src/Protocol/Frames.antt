-- ===== src/Protocol/Frames.antt =====
-- What the frame encoders accept and write. A write reaches CONFIG alone, or a span inside the
-- threshold registers 03h to 06h.
use max.Prelude.{
  ℕ, ◌+◌, ◌≤◌, ◌<◌, ◌≡◌, refl, sym, ap, ◌∙◌, ◌++◌, length-replicate, ◌⊎◌, ◌↔◌, Bool, true, false,
  not, ◌&&◌, ◌||◌, some, List, [], ◌∷◌, arith, leb, ◌==◌, replicate, length, bit_or, bit_and,
}
use max.Prelude.Bits.{all_below, all_below_sound}
use max.Status.{ok, is_ok, ◌>>◌}
use max.Commands.{write_bit, read_mask}
use max.Protocol.{
  encode_read_frame, encode_write_frame, validate_span, check_writable, copy, overwrite,
}

-- The spans that the device lets the host write.
unfoldable pub IsWritableSpan : ℕ → ℕ → Type 0
IsWritableSpan start length =
    ((start ≡ 0) × (length ≡ 1)) ⊎ ((3 ≤ start) × (1 ≤ length) × (start + length ≤ 7))

abbrev writable_span : ℕ → ℕ → Bool
writable_span start length =
    ((start == 0) && (length == 1)) || (leb 3 start && leb 1 length && leb (start + length) 7)

abbrev accepted_span : ℕ → ℕ → Bool
accepted_span start length = is_ok (validate_span start length >> check_writable length start)

same_bool : Bool → Bool → Bool
same_bool true b = b
same_bool false b = not b

same_bool-eq : (a b : Bool) → same_bool a b ≡ true → a ≡ b
unfolding same_bool
same_bool-eq true b h = sym h
same_bool-eq false true h = h
same_bool-eq false false h = refl

span_table :
    all_below 8 (λ s. all_below 9 (λ n. same_bool (accepted_span s n) (writable_span s n))) ≡ true
unfolding all_below validate_span check_writable same_bool
span_table = refl

accepted-small : (s n : ℕ) → s < 8 → n < 9 → accepted_span s n ≡ writable_span s n
accepted-small s n hs hn =
    same_bool-eq _ _ (all_below_sound 9 _ n (all_below_sound 8 _ s span_table hs) hn)

validate_span_bounds :
    (s n : ℕ) → is_ok (validate_span s n) ≡ true → (s < 8) × (1 ≤ n) × (s + n ≤ 8)
unfolding validate_span
validate_span_bounds s n h = ground arith

accepted_bounds : (s n : ℕ) → accepted_span s n ≡ true → (s < 8) × (1 ≤ n) × (s + n ≤ 8)
accepted_bounds s n h = validate_span_bounds s n (ground arith)

writable_bounds : (s n : ℕ) → IsWritableSpan s n → (s < 8) × (n < 9)
unfolding IsWritableSpan
writable_bounds s n h = ground arith

writable_iff : (s n : ℕ) → (writable_span s n ≡ true) ↔ IsWritableSpan s n
unfolding IsWritableSpan
writable_iff s n = ground arith

accepted_iff : (s n : ℕ) → (accepted_span s n ≡ true) ↔ IsWritableSpan s n
accepted_iff s n =
    (λ h. to_span h (accepted_bounds s n h), λ h. from_span h (writable_bounds s n h))
  where
    to_span : accepted_span s n ≡ true → (s < 8) × (1 ≤ n) × (s + n ≤ 8) → IsWritableSpan s n
    to_span h b = (writable_iff s n).0 (sym (accepted-small s n b.0 (omega arith)) ∙ h)

    from_span : IsWritableSpan s n → (s < 8) × (n < 9) → accepted_span s n ≡ true
    from_span h b = accepted-small s n b.0 b.1 ∙ (writable_iff s n).1 h

encode_write_frame-accepts :
    (s n : ℕ) (values tx : List ℕ) (capacity : ℕ)
    → n < capacity
    → is_ok (encode_write_frame s (some values) n (some tx) capacity) ≡ accepted_span s n
unfolding encode_write_frame
encode_write_frame-accepts s n values tx capacity h = ground arith

-- With both buffers present and a destination of more than `length` bytes, a write frame is
-- encoded exactly when the span is CONFIG alone or lies within the threshold registers.
pub encode_write_frame_iff :
    (start length : ℕ) (values tx : List ℕ) (capacity : ℕ)
    → length < capacity
    → (is_ok (encode_write_frame start (some values) length (some tx) capacity) ≡ true)
      ↔ IsWritableSpan start length
encode_write_frame_iff start length values tx capacity h =
    rw (encode_write_frame-accepts start length values tx capacity h) (accepted_iff start length)

copy_self : (values : List ℕ) → copy (length values) values ≡ values
copy_self [] = refl
copy_self (v ∷ values) = ap (λ vs. v ∷ vs) (copy_self values)

overwrite-append :
    (frame old rest : List ℕ)
    → length frame ≡ length old
    → overwrite frame (old ++ rest) ≡ frame ++ rest
overwrite-append [] [] rest h = refl
overwrite-append [] (o ∷ old) rest h = absurd (omega arith)
overwrite-append (b ∷ frame) [] rest h = absurd (omega arith)
overwrite-append (b ∷ frame) (o ∷ old) rest h =
    ap (λ bs. b ∷ bs) (overwrite-append frame old rest (omega arith))

address_table :
    all_below 8 (λ a. (bit_or a write_bit == a + 128) && (bit_and a read_mask == a)) ≡ true
unfolding all_below
address_table = refl

address_byte : (a : ℕ) → a < 8 → (bit_or a write_bit ≡ a + 128) × (bit_and a read_mask ≡ a)
address_byte a h = ground (arith, all_below_sound 8 _ a address_table h)

write_frame_value :
    (s n capacity : ℕ) (values tx : List ℕ)
    → n < capacity
    → accepted_span s n ≡ true
    → encode_write_frame s (some values) n (some tx) capacity
      ≡ ok (overwrite (bit_or s write_bit ∷ copy n values) tx, n + 1)
unfolding encode_write_frame
write_frame_value s n capacity values tx h a = ground arith

-- For a writable span, the frame is the address with the write bit, then the values in order; it
-- replaces as many bytes at the head of the destination, and the rest of the destination stays.
pub encode_write_frame_lem :
    (start capacity : ℕ) (values old rest : List ℕ)
    → IsWritableSpan start (length values)
    → length values < capacity
    → length old ≡ length values + 1
    → encode_write_frame start (some values) (length values) (some (old ++ rest)) capacity
      ≡ ok ((start + 128) ∷ values ++ rest, length values + 1)
encode_write_frame_lem start capacity values old rest span fits same =
    write_frame_value start (length values) capacity values (old ++ rest) fits
      ((accepted_iff start (length values)).1 span)
    ∙ ap (λ tx. ok (tx, length values + 1)) frame
  where
    bytes : (bit_or start write_bit ∷ copy (length values) values) ≡ (start + 128) ∷ values
    bytes =
        rw ((address_byte start (writable_bounds start (length values) span).0).0, copy_self values)

    frame :
        overwrite (bit_or start write_bit ∷ copy (length values) values) (old ++ rest)
        ≡ (start + 128) ∷ values ++ rest
    frame = rw bytes (overwrite-append ((start + 128) ∷ values) old rest (omega arith))

read_frame_value :
    (s n capacity : ℕ) (tx : List ℕ)
    → n < capacity
    → 1 ≤ n
    → s + n ≤ 8
    → encode_read_frame s n (some tx) capacity
      ≡ ok (overwrite (bit_and s read_mask ∷ replicate n 0) tx, n + 1)
unfolding encode_read_frame
read_frame_value s n capacity tx fits some_bytes inside = ground arith

read_frame_refused :
    (s n capacity : ℕ) (tx : List ℕ)
    → ¬ ((1 ≤ n) × (s + n ≤ 8))
    → is_ok (encode_read_frame s n (some tx) capacity) ≡ false
unfolding encode_read_frame
read_frame_refused s n capacity tx outside = ground arith

-- A read frame is encoded exactly for a span of one register or more inside the register map,
-- with a destination of more than `length` bytes; it is the address and as many zeros, and the
-- rest of the destination stays.
pub encode_read_frame_lem :
    (start capacity n : ℕ) (old rest : List ℕ)
    → n < capacity
    → length old ≡ n + 1
    → ((1 ≤ n) × (start + n ≤ 8)
        → encode_read_frame start n (some (old ++ rest)) capacity
          ≡ ok (start ∷ replicate n 0 ++ rest, n + 1))
      × (¬ ((1 ≤ n) × (start + n ≤ 8))
          → is_ok (encode_read_frame start n (some (old ++ rest)) capacity) ≡ false)
encode_read_frame_lem start capacity n old rest fits same = (
  λ h.
      read_frame_value start n capacity (old ++ rest) fits h.0 h.1
      ∙ ap (λ tx. ok (tx, n + 1))
          (rw (address_byte start (omega arith)).1 (
            overwrite-append (start ∷ replicate n 0) old rest
              (omega (arith, length-replicate {A = ℕ} n 0)))),
  read_frame_refused start n capacity (old ++ rest),
)
