-- ===== src/Transport/Tcp/Frame.antt =====
-- The frames on the wire (src/TcpTransport.cpp).
use alkaidlab_fw.Base.{
  ℕ, suc, ◌+◌, ◌*◌, ◌%◌, ◌^◌, ◌≤◌, ◌<◌, ◌≡◌, arith, ◌∙◌, List, [], ◌∷◌, Bytes, length, take, ltb,
  if_false,
}
use alkaidlab_fw.Transport.{Response, succeed}
use alkaidlab_fw.Transport.Tcp.{Tcp, big_endian, frame, take_packet}

-- A number read from bytes, the highest first.
abbrev pub number : ℕ → Bytes → ℕ
number acc [] = acc
number acc (b ∷ bs) = number (acc * 256 + b) bs

number-big_endian : (n : ℕ) → n < 2 ^ 32 → number 0 (big_endian n) ≡ n
unfolding big_endian
number-big_endian n small = omega arith

-- Of a body that the size test lets through, the frame's first four bytes are the length of the
-- whole frame; a packet that is such a frame is received as the body, and leaves the queue.
pub frame_lem :
    (body : Bytes) (packets : List Bytes) (t : Tcp) (resp : Response)
    → length body ≤ 0xFFFFFFFB
    → (number 0 (take 4 (frame body)) ≡ length (frame body))
      × (take_packet (frame body ∷ packets) t resp
          ≡ succeed body (record t { packets = packets }) resp)
unfolding frame take_packet big_endian
frame_lem body packets t resp small = (
  number-big_endian ((length body + 4) % 2 ^ 32) (omega arith) ∙ omega arith,
  if_false {b = ltb (suc (suc (suc (suc (length body))))) 4} _ _ (ground arith),
)
