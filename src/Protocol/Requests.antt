-- ===== src/Protocol/Requests.antt =====
-- The commands of a RequestPacket, and what a server reads from them by the protocol's description.
use memcache_router.Prelude.{
  ℕ, zero, suc, ◌+◌, ◌-◌, ◌^◌, ◌<◌, List, [], ◌∷◌, ◌++◌, append_assoc, append-nil, ◌≡◌, refl, ◌∙◌,
  sym, subst, arith, length, length-append, Option, none, some, true, false, if◌then◌else◌, ltb,
  ◌==◌, All,
}
use memcache_router.Prelude.Text.{Text}
use memcache_router.Protocol.{
  ProtocolHeader, RequestPacket, new_request, reset_header, request_magic, header_bytes,
  read_header, get, set, noop,
}
use memcache_router.Protocol.Bytes.{be, read, take, drop, read-be, drop-append, take-append}
use memcache_router.Protocol.Headers.{Fits, read_header-header_bytes, length-header_bytes}

pub data Request : Type 0 where
  get_request : Text → Request
  set_request : (key value : Text) (flag expiry cas : ℕ) → Request
  noop_request : Request

unfoldable pub add_request : Request → RequestPacket → RequestPacket
add_request (get_request key) r = get key r
add_request (set_request key value flag expiry cas) r = set key value flag expiry cas r
add_request noop_request r = noop r

unfoldable pub add_requests : List Request → RequestPacket → RequestPacket
add_requests [] r = r
add_requests (q ∷ qs) r = add_requests qs (add_request q r)

-- The numbers fit the fields that the protocol has for them.
abbrev pub RequestFits : Request → Type 0
RequestFits (get_request key) = length key < 256 ^ 2
RequestFits (set_request key value flag expiry cas) =
    (length key < 256 ^ 2)
    × (length key + length value + 8 < 256 ^ 4)
    × (flag < 256 ^ 4)
    × (expiry < 256 ^ 4)
    × (cas < 256 ^ 8)
RequestFits noop_request = Unit

-- The body behind a header, by its opcode; `none` is a packet that is neither.
unfoldable pub read_body : ProtocolHeader → Text → Option (Request × Text)
read_body h body =
    let key_of : Text → Text = take h.key_length in
    let (flag, t1) = read 4 body in
    let (expiry, t2) = read 4 t1 in
    let value_length : ℕ = h.total_body_length - h.extra_length - h.key_length in
    let t3 : Text = drop h.key_length t2 in
    if h.opcode == 0
    then some (get_request (key_of body), drop h.key_length body)
    else if h.opcode == 1
    then some
        (set_request (key_of t2) (take value_length t3) flag expiry h.cas, drop value_length t3)
    else if h.opcode == 10
    then some (noop_request, body)
    else none

unfoldable pub read_request : Text → Option (Request × Text)
read_request t =
    let h : ProtocolHeader = read_header t in
    if ltb (length t) 24
    then none
    else if h.magic == request_magic
    then read_body h (drop 24 t)
    else none

pub with_request : Request → Option (List Request × Text) → Option (List Request × Text)
with_request q none = none
with_request q (some (qs, t)) = some (q ∷ qs, t)

-- As many requests as a number says, and the bytes behind them.
unfoldable pub read_requests : ℕ → Text → Option (List Request × Text)
unfolding with_request
read_requests zero t = some ([], t)
read_requests (suc n) t = elim (read_request t) [
  | none ↦ none
  | some (q, rest) ↦ with_request q (read_requests n rest)
]

-- The header and the body of a request.
request_header : Request → ProtocolHeader
request_header (get_request key) = record reset_header {
  magic = request_magic;
  key_length = length key;
  total_body_length = length key;
}
request_header (set_request key value flag expiry cas) = record reset_header {
  magic = request_magic;
  opcode = 1;
  key_length = length key;
  extra_length = 8;
  total_body_length = length key + length value + 8;
  cas = cas;
}
request_header noop_request = record reset_header { magic = request_magic; opcode = 10 }

request_body : Request → Text
request_body (get_request key) = key
request_body (set_request key value flag expiry cas) = be 4 flag ++ (be 4 expiry ++ (key ++ value))
request_body noop_request = []

request_header-Fits : (q : Request) → RequestFits q → Fits (request_header q)
unfolding request_header
request_header-Fits (get_request key) f = omega (arith, f)
request_header-Fits (set_request key value flag expiry cas) f = omega (arith, f)
request_header-Fits noop_request f = omega arith

add_request_lem :
    (q : Request) (r : RequestPacket)
    → add_request q r ≡ record {
      command = r.command ++ (header_bytes (request_header q) ++ request_body q);
      num = r.num + 1;
    }
unfolding add_request get set noop request_header request_body
add_request_lem (get_request key) r = refl
add_request_lem (set_request key value flag expiry cas) r = refl
add_request_lem noop_request r = simp append-nil

read_body-request_body :
    (q : Request) (t : Text)
    → RequestFits q
    → read_body (request_header q) (request_body q ++ t) ≡ some (q, t)
unfolding read_body request_header request_body
read_body-request_body (get_request key) t f = rw (take-append key t, drop-append key t)
read_body-request_body (set_request key value flag expiry cas) t f =
    let rest : length key + length value + 8 - 8 - length key ≡ length value = omega arith in
    simp (append_assoc) (
      rw (
        read-be 4 flag (be 4 expiry ++ (key ++ (value ++ t))) f.2,
        read-be 4 expiry (key ++ (value ++ t)) f.3,
        rest,
        drop-append key (value ++ t),
        take-append key (value ++ t),
        take-append value t,
        drop-append value t,
      ))
read_body-request_body noop_request t f = refl

request_header_magic : (q : Request) → ((request_header q).magic == request_magic) ≡ true
unfolding request_header
request_header_magic (get_request key) = refl
request_header_magic (set_request key value flag expiry cas) = refl
request_header_magic noop_request = refl

drop_header : (h : ProtocolHeader) (t : Text) → drop 24 (header_bytes h ++ t) ≡ t
drop_header h t =
    subst (λ (n : ℕ). drop n (header_bytes h ++ t) ≡ t) (length-header_bytes h)
      (drop-append (header_bytes h) t)

long_enough : (h : ProtocolHeader) (t : Text) → ltb (length (header_bytes h ++ t)) 24 ≡ false
long_enough h t = rw (length-append (header_bytes h) t, length-header_bytes h) (ground arith)

read_request-header_bytes :
    (q : Request) (t : Text)
    → RequestFits q
    → read_request (header_bytes (request_header q) ++ (request_body q ++ t)) ≡ some (q, t)
unfolding read_request
read_request-header_bytes q t f =
    rw
      (
        read_header-header_bytes (request_header q) (request_body q ++ t) (request_header-Fits q f),
        long_enough (request_header q) (request_body q ++ t),
        request_header_magic q,
        drop_header (request_header q) (request_body q ++ t),
      )
      (read_body-request_body q t f)

request_bytes : Request → Text
request_bytes q = header_bytes (request_header q) ++ request_body q

all_bytes : List Request → Text
all_bytes [] = []
all_bytes (q ∷ qs) = request_bytes q ++ all_bytes qs

read_requests-all_bytes :
    (qs : List Request) (t : Text)
    → All RequestFits qs
    → read_requests (length qs) (all_bytes qs ++ t) ≡ some (qs, t)
unfolding read_requests all_bytes request_bytes
read_requests-all_bytes [] t fs = refl
read_requests-all_bytes (q ∷ qs) t (f, fs) = simp (append_assoc) (
    rw (read_request-header_bytes q (all_bytes qs ++ t) f, read_requests)
      (rw (read_requests-all_bytes qs t fs, with_request)))

packet : Text → ℕ → RequestPacket
packet command num = record { command = command; num = num }

packet_eq : {s t : Text} {m n : ℕ} → s ≡ t → m ≡ n → packet s m ≡ packet t n
packet_eq p q = λ i. packet (p i) (q i)

add_requests_lem :
    (qs : List Request) (r : RequestPacket)
    → add_requests qs r ≡ packet (r.command ++ all_bytes qs) (r.num + length qs)
unfolding add_requests all_bytes request_bytes packet
add_requests_lem [] r = packet_eq (sym (append-nil r.command)) (omega arith)
add_requests_lem (q ∷ qs) r =
    add_requests_lem qs (add_request q r)
    ∙ rw (add_request_lem q r)
        (packet_eq (append_assoc r.command (request_bytes q) (all_bytes qs)) (omega arith))

-- Requests that fit their fields, added to a new packet in any number and order: a server that knows how
-- many they are reads the same requests in the same order, what follows them is left, and the packet
-- counts them.
pub read_requests-add_requests :
    (qs : List Request) (t : Text)
    → All RequestFits qs
    → (read_requests (length qs) ((add_requests qs new_request).command ++ t) ≡ some (qs, t))
      × ((add_requests qs new_request).num ≡ length qs)
unfolding packet
read_requests-add_requests qs t fs = (
  rw (add_requests_lem qs new_request) (read_requests-all_bytes qs t fs),
  rw (add_requests_lem qs new_request) (omega arith),
)
