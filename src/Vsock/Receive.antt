-- ===== src/Vsock/Receive.antt =====
-- A packet into the guest: its header and data lie in the buffers of the chain, in order.
use ignition.Base.{
  ℕ, ◌+◌, ◌-◌, ◌%◌, ◌^◌, ◌≤◌, ◌<◌, leb, min, true, ◌≡◌, refl, ap, ◌∙◌, ◌⊎◌, inl, inr, List, [], ◌∷◌,
  ◌++◌, length, arith, All, Bool-cases, slice, length-slice,
}
use ignition.Ram.{GuestRam, read_slice, write_slice}
use ignition.Ram.Slices.{Fits, Inside, write_slice-true}
use ignition.Queue.{Desc, DescChain}
use ignition.Queue.Buffers.{total}
use ignition.Net.{place, place_all}
use ignition.Net.Inject.{Receivable, Receivable-moved, Laid, Placed, place-Placed, place_all-lays}
use ignition.Vsock.Packet.{to_bytes}
use ignition.Vsock.Muxer.{RxPacket}
use ignition.Vsock.Device.{write_desc, write_descs, write_rx}

-- On a buffer that takes what is written, the two devices' rounds agree.
write_desc-place :
    (mem : GuestRam) (d : Desc) (buf : List ℕ) (written : ℕ)
    → Fits mem
    → d.writable ≡ true
    → Inside mem d.addr d.len
    → write_desc mem d buf written ≡ place mem d buf written
unfolding write_desc place
write_desc-place mem d buf written f w inside = elim (Bool-cases (leb (length buf) written)) [
  | inl e ↦ ground arith
  | inr e ↦
      let n = min d.len (length buf - written) in
      let part = slice buf written n in
      let long : length part ≡ n = length-slice buf written n (ground arith) in
      let done : (write_slice mem d.addr part).0 ≡ true =
        (write_slice-true mem d.addr part f).1 (inside.0, omega (arith, inside.1, long)) in
      ground (arith, done)
]

write_descs-place_all :
    (mem : GuestRam) (ds : List Desc) (buf : List ℕ) (written : ℕ)
    → Fits mem
    → Receivable mem ds
    → written ≤ length buf
    → write_descs mem ds buf written ≡ place_all mem ds buf written
unfolding write_descs place_all Placed
write_descs-place_all mem [] buf written f h within = refl
write_descs-place_all mem (d ∷ ds) buf written f h within =
    let placed = place-Placed mem d buf written f h.0 h.1 within in
    let (off1, mem1) = place mem d buf written in
    let same = write_desc-place mem d buf written f h.0 h.1 in
    let fits : Fits mem1 = omega (arith, placed.2, placed.3, f) in
    ap (λ r. write_descs r.1 ds buf r.0) same
    ∙ write_descs-place_all mem1 ds buf off1 fits
        (Receivable-moved mem mem1 ds placed.2 placed.3 h.3) (omega (arith, placed.0))

-- A packet put into writable buffers that lie in memory and do not overlap fills them in order
-- with its header and its data, as much as fits; that many bytes are reported, for packets below
-- 2^32 bytes, and memory outside the buffers stays.
pub write_rx-lays :
    (chain : DescChain) (mem : GuestRam) (pkt : RxPacket)
    → Fits mem
    → Receivable mem chain.descriptors
    → length (to_bytes pkt.hdr ++ pkt.data') < 2 ^ 32
    → (mem' : GuestRam) × (write_rx chain mem pkt
        ≡ (min (total chain.descriptors) (length (to_bytes pkt.hdr ++ pkt.data')), mem'))
      × Laid mem' chain.descriptors (to_bytes pkt.hdr ++ pkt.data') 0
      × ((a k : ℕ)
          → All (λ d. (a + k ≤ d.addr) ⊎ (d.addr + d.len ≤ a)) chain.descriptors
          → read_slice mem' a k ≡ read_slice mem a k)
unfolding write_rx
write_rx-lays chain mem pkt f h short =
    let buf = to_bytes pkt.hdr ++ pkt.data' in
    let (mem', run, laid, frame) = place_all-lays mem chain.descriptors buf 0 f h (omega arith) in
    let same = write_descs-place_all mem chain.descriptors buf 0 f h (omega arith) in
    let count : (0 + min (total chain.descriptors) (length buf - 0)) % 2 ^ 32
        ≡ min (total chain.descriptors) (length buf) =
      omega arith in
    (mem', ap (λ r. (r.0 % 2 ^ 32, r.1)) (same ∙ run) ∙ ap (λ n. (n, mem')) count, laid, frame)
