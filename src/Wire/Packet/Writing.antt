-- ===== src/Wire/Packet/Writing.antt =====
-- What the writes through a cursor leave in the buffer: the packet's image, and behind it what was
-- there before.
use binary_market_data_feed.Prelude.{
  ℕ, suc, ◌+◌, ◌*◌, ◌≤◌, ◌≡◌, refl, ap, ◌∙◌, List, [], ◌∷◌, ◌++◌, append_assoc, length, drop, arith,
  All, length-append, drop-drop, length-drop, subst,
}
use binary_market_data_feed.Wire.Structs.{Message}
use binary_market_data_feed.Wire.Layout.{message_bytes, IsMessage, length-message_bytes}
use binary_market_data_feed.Wire.Packet.{overwrite, write_at, write_messages}

-- The messages one after the other.
unfoldable pub images : List Message → List ℕ
images [] = []
images (m ∷ ms) = message_bytes m ++ images ms

pub length-images : (ms : List Message) → All IsMessage ms → length (images ms) ≡ length ms * 24
unfolding images
length-images [] h = omega arith
length-images (m ∷ ms) h = omega (
  arith,
  length-append (message_bytes m) (images ms),
  length-message_bytes m h.0,
  length-images ms h.1,
)

overwrite_lem :
    (buffer source : List ℕ)
    → length source ≤ length buffer
    → overwrite buffer source ≡ source ++ drop (length source) buffer
unfolding overwrite
overwrite_lem buffer [] h = refl
overwrite_lem [] (s ∷ source) h = absurd (omega arith)
overwrite_lem (b ∷ buffer) (s ∷ source) h = ap (◌∷◌ s) (overwrite_lem buffer source (omega arith))

-- A write behind what is there already.
pub write_at_end :
    (front buffer source : List ℕ)
    → length source ≤ length buffer
    → write_at (front ++ buffer) (length front) source
      ≡ front ++ (source ++ drop (length source) buffer)
unfolding write_at
write_at_end [] buffer source h = overwrite_lem buffer source h
write_at_end (f ∷ front) buffer source h = ap (◌∷◌ f) (write_at_end front buffer source h)

write_message_at_end :
    (front buffer : List ℕ) (cursor : ℕ) (m : Message)
    → IsMessage m
    → cursor ≡ length front
    → 24 ≤ length buffer
    → write_at (front ++ buffer) cursor (message_bytes m)
      ≡ (front ++ message_bytes m) ++ drop 24 buffer
write_message_at_end front buffer cursor m h e fits =
    let width : length (message_bytes m) ≡ 24 = length-message_bytes m h in
    rw (e, append_assoc)
      (subst
        (λ (n : ℕ).
          write_at (front ++ buffer) (length front) (message_bytes m)
          ≡ front ++ (message_bytes m ++ drop n buffer))
        width (write_at_end front buffer (message_bytes m) (omega (arith, width))))

regroup :
    (front image rest : List ℕ) (n : ℕ) (buffer : List ℕ)
    → (front ++ image) ++ (rest ++ drop (n * 24) (drop 24 buffer))
      ≡ front ++ ((image ++ rest) ++ drop (suc n * 24) buffer)
regroup front image rest n buffer =
    let count : 24 + n * 24 ≡ suc n * 24 = omega arith in
    simp append_assoc (rw (drop-drop 24 (n * 24) buffer, count))

pub write_messages_lem :
    (front buffer : List ℕ) (cursor : ℕ) (ms : List Message)
    → All IsMessage ms
    → cursor ≡ length front
    → length ms * 24 ≤ length buffer
    → write_messages (front ++ buffer) cursor ms
      ≡ front ++ (images ms ++ drop (length ms * 24) buffer)
unfolding write_messages images
write_messages_lem front buffer cursor [] h e fits = refl
write_messages_lem front buffer cursor (m ∷ ms) h e fits =
    let image = message_bytes m in
    let width : length image ≡ 24 = length-message_bytes m h.0 in
    let rest =
      write_messages_lem (front ++ image) (drop 24 buffer) (cursor + 24) ms h.1
        (omega (arith, length-append front image, width, e))
        (omega (arith, length-drop 24 buffer)) in
    ap (λ (b : List ℕ). write_messages b (cursor + 24) ms)
      (write_message_at_end front buffer cursor m h.0 e (omega arith))
    ∙ (rest ∙ regroup front image (images ms) (length ms) buffer)
