-- ===== src/Protocol/Headers.antt =====
-- What is read from a header that was stored.
use memcache_router.Prelude.{
  ℕ, ◌+◌, ◌^◌, ◌<◌, ◌≤◌, ◌++◌, append_assoc, ◌≡◌, ap, ◌∙◌, arith, length, length-append, some,
}
use memcache_router.Prelude.Text.{Text}
use memcache_router.Messages.{pos}
use memcache_router.Protocol.{
  ProtocolHeader, header_bytes, read_header, response_magic, parse_header, check_header,
}
use memcache_router.Protocol.Bytes.{drop, read-be, drop-append, length-be}

-- Each field holds its number.
pub record Fits (h : ProtocolHeader) : Type 0 where
  pub magic_fits : h.magic < 256 ^ 1
  pub opcode_fits : h.opcode < 256 ^ 1
  pub key_fits : h.key_length < 256 ^ 2
  pub extra_fits : h.extra_length < 256 ^ 1
  pub type_fits : h.data_type < 256 ^ 1
  pub reserved_fits : h.reserved < 256 ^ 2
  pub body_fits : h.total_body_length < 256 ^ 4
  pub opaque_fits : h.opaque < 256 ^ 4
  pub cas_fits : h.cas < 256 ^ 8

pub read_header-header_bytes :
    (h : ProtocolHeader) (t : Text) → Fits h → read_header (header_bytes h ++ t) ≡ h
unfolding read_header header_bytes
read_header-header_bytes h t f = simp (
  append_assoc,
  read-be 1 h.magic _ f.magic_fits,
  read-be 1 h.opcode _ f.opcode_fits,
  read-be 2 h.key_length _ f.key_fits,
  read-be 1 h.extra_length _ f.extra_fits,
  read-be 1 h.data_type _ f.type_fits,
  read-be 2 h.reserved _ f.reserved_fits,
  read-be 4 h.total_body_length _ f.body_fits,
  read-be 4 h.opaque _ f.opaque_fits,
  read-be 8 h.cas _ f.cas_fits,
)

pub length-header_bytes : (h : ProtocolHeader) → length (header_bytes h) ≡ 24
unfolding header_bytes
length-header_bytes h = simp (length-append, length-be)

check_header_small :
    (at : ℕ) (h : ProtocolHeader)
    → h.magic ≡ response_magic
    → at + 24 + h.total_body_length < 2 ^ 31
    → check_header at h ≡ some (pos (at + 24 + h.total_body_length), h)
unfolding check_header
check_header_small at h magic small = ground arith

parse_header_long :
    (response : Text) (at : ℕ) (h old : ProtocolHeader)
    → at + 24 ≤ length response
    → read_header (drop at response) ≡ h
    → parse_header response at old ≡ check_header at h
unfolding parse_header
parse_header_long response at h old long e = rw e (ground arith)

-- Where a response's header stands in a text, with fields that hold their numbers and the magic of a
-- response, and where the position behind its packet is below 2^31, ParseHeader reads that header and
-- gives that position.
pub parse_header-header_bytes :
    (before : Text) (h : ProtocolHeader) (body : Text) (old : ProtocolHeader)
    → Fits h
    → h.magic ≡ response_magic
    → length before + 24 + h.total_body_length < 2 ^ 31
    → parse_header (before ++ (header_bytes h ++ body)) (length before) old
      ≡ some (pos (length before + 24 + h.total_body_length), h)
parse_header-header_bytes before h body old f magic small =
    parse_header_long (before ++ (header_bytes h ++ body)) (length before) h old
      (omega (
        arith,
        length-append {0} before (header_bytes h ++ body),
        length-append {0} (header_bytes h) body,
        length-header_bytes h,
      ))
      (ap read_header (drop-append before (header_bytes h ++ body))
        ∙ read_header-header_bytes h body f)
    ∙ check_header_small (length before) h magic small
