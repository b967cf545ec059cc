-- ===== src/Vsock/Packet.antt =====
-- crates/devices/src/virtio/vsock/packet.rs: the 44-byte header, little-endian.
use ignition.Base.{
  ℕ, ◌^◌, ◌<◌, ltb, if◌then◌else◌, ◌≡◌, refl, Option, none, some, List, ◌++◌, length, slice, arith,
  to_le_bytes, from_le_bytes, from_le_bytes-to_le_bytes, false,
}

abbrev pub vsock_type_stream : ℕ
vsock_type_stream = 1

abbrev pub vsock_cid_host : ℕ
vsock_cid_host = 2

abbrev pub vsock_guest_cid : ℕ
vsock_guest_cid = 3

abbrev pub vsock_hdr_size : ℕ
vsock_hdr_size = 44

abbrev pub op_request : ℕ
op_request = 1

abbrev pub op_response : ℕ
op_response = 2

abbrev pub op_rst : ℕ
op_rst = 3

abbrev pub op_shutdown : ℕ
op_shutdown = 4

abbrev pub op_rw : ℕ
op_rw = 5

abbrev pub op_credit_update : ℕ
op_credit_update = 6

abbrev pub op_credit_request : ℕ
op_credit_request = 7

pub record VsockHeader : Type 0 where
  pub src_cid : ℕ
  pub dst_cid : ℕ
  pub src_port : ℕ
  pub dst_port : ℕ
  pub len : ℕ
  pub type_ : ℕ
  pub op : ℕ
  pub flags : ℕ
  pub buf_alloc : ℕ
  pub fwd_cnt : ℕ

unfoldable pub to_bytes : VsockHeader → List ℕ
to_bytes h =
    to_le_bytes 8 h.src_cid
    ++ (to_le_bytes 8 h.dst_cid
        ++ (to_le_bytes 4 h.src_port
            ++ (to_le_bytes 4 h.dst_port
                ++ (to_le_bytes 4 h.len
                    ++ (to_le_bytes 2 h.type_
                        ++ (to_le_bytes 2 h.op
                            ++ (to_le_bytes 4 h.flags
                                ++ (to_le_bytes 4 h.buf_alloc ++ to_le_bytes 4 h.fwd_cnt))))))))

unfoldable pub from_bytes : List ℕ → Option VsockHeader
from_bytes b =
    if ltb (length b) vsock_hdr_size
    then none
    else some (record {
      src_cid = from_le_bytes (slice b 0 8);
      dst_cid = from_le_bytes (slice b 8 8);
      src_port = from_le_bytes (slice b 16 4);
      dst_port = from_le_bytes (slice b 20 4);
      len = from_le_bytes (slice b 24 4);
      type_ = from_le_bytes (slice b 28 2);
      op = from_le_bytes (slice b 30 2);
      flags = from_le_bytes (slice b 32 4);
      buf_alloc = from_le_bytes (slice b 36 4);
      fwd_cnt = from_le_bytes (slice b 40 4);
    })

-- Every field within its width.
pub record Fits (h : VsockHeader) : Type 0 where
  pub src_cid : h.src_cid < 2 ^ 64
  pub dst_cid : h.dst_cid < 2 ^ 64
  pub src_port : h.src_port < 2 ^ 32
  pub dst_port : h.dst_port < 2 ^ 32
  pub len : h.len < 2 ^ 32
  pub type_ : h.type_ < 2 ^ 16
  pub op : h.op < 2 ^ 16
  pub flags : h.flags < 2 ^ 32
  pub buf_alloc : h.buf_alloc < 2 ^ 32
  pub fwd_cnt : h.fwd_cnt < 2 ^ 32

-- A header whose fields fit comes back from its bytes, whatever payload follows them.
pub from_bytes-to_bytes :
    (h : VsockHeader) (payload : List ℕ) → Fits h → from_bytes (to_bytes h ++ payload) ≡ some h
unfolding from_bytes to_bytes
from_bytes-to_bytes h payload f =
    let back = λ (n v : ℕ) (lt : v < 256 ^ n). from_le_bytes-to_le_bytes n v lt in
    let long : ltb (length (to_bytes h ++ payload)) vsock_hdr_size ≡ false = ground arith in
    rw
      (
        long,
        back 8 h.src_cid f.src_cid,
        back 8 h.dst_cid f.dst_cid,
        back 4 h.src_port f.src_port,
        back 4 h.dst_port f.dst_port,
        back 4 h.len f.len,
        back 2 h.type_ f.type_,
        back 2 h.op f.op,
        back 4 h.flags f.flags,
        back 4 h.buf_alloc f.buf_alloc,
        back 4 h.fwd_cnt f.fwd_cnt,
      )
      refl

-- The header takes 44 bytes.
pub length-to_bytes : (h : VsockHeader) → length (to_bytes h) ≡ vsock_hdr_size
unfolding to_bytes
length-to_bytes h = refl
