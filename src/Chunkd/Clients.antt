-- ===== src/Chunkd/Clients.antt =====
-- The clients of chunkd/server.c: what a connection holds, its request's bytes, and the replies.
pub mod Operations
pub mod Events
pub mod Replies
pub mod Access
pub mod History
pub mod Assembly
use hail.Base.{
  ℕ, suc, ◌+◌, ◌*◌, ◌^◌, ◌≡◌, Bool, true, false, not, ◌&&◌, Option, none, some, List, [], ◌∷◌, ◌++◌,
  length, take, drop, replicate, ltb, leb, ◌==◌, if◌then◌else◌,
}
use hail.Cld.Dir.{same_bytes}

abbrev pub magic_sz : ℕ
magic_sz = 8

abbrev pub user_sz : ℕ
user_sz = 64

abbrev pub key_sz : ℕ
key_sz = 1024

abbrev pub sig_sz : ℕ
sig_sz = 64

-- sizeof(struct chunksrv_req)
abbrev pub req_sz : ℕ
req_sz = 88

-- sizeof(struct chunksrv_req_getpart)
abbrev pub getpart_sz : ℕ
getpart_sz = 8

-- CHUNKD_MAGIC
abbrev pub chunkd_magic : List ℕ
chunkd_magic = 67 ∷ 72 ∷ 85 ∷ 78 ∷ 75 ∷ 68 ∷ 118 ∷ 49 ∷ []

-- enum chunksrv_ops, and every number that is none of them
pub data ChunkOp : Type 0 where
  nop get get_meta put del list login table_open check_start check_status start_tls cp get_part :
      ChunkOp
  unknown : ℕ → ChunkOp

unfoldable pub op_from : ℕ → ChunkOp
op_from n =
    if n == 0
    then nop
    else if n == 1
    then get
    else if n == 2
    then get_meta
    else if n == 3
    then put
    else if n == 4
    then del
    else if n == 5
    then list
    else if n == 6
    then login
    else if n == 7
    then table_open
    else if n == 8
    then check_start
    else if n == 9
    then check_status
    else if n == 10
    then start_tls
    else if n == 11
    then cp
    else if n == 12
    then get_part
    else unknown n

-- enum chunk_errcode
pub data ErrCode : Type 0 where
  success access_denied internal_error invalid_argument invalid_uri no_such_key : ErrCode
  signature_does_not_match invalid_key invalid_table busy key_exists invalid_seek : ErrCode

-- enum client_state
pub data ClientState : Type 0 where
  read_fixed read_var exec_req data_in dispose recycle ssl_accept : ClientState

-- A number of the wire: its bytes, the lowest first.
abbrev pub from_le : List ℕ → ℕ
from_le [] = 0
from_le (b ∷ bs) = b + 256 * from_le bs

-- The characters of a C string, up to the first zero.
abbrev pub c_str : List ℕ → List ℕ
c_str [] = []
c_str (b ∷ bs) = if b == 0 then [] else b ∷ c_str bs

-- The fields of struct chunksrv_req, from its bytes.
abbrev pub magic_of : List ℕ → List ℕ
magic_of req = take magic_sz req

unfoldable pub req_op : List ℕ → ChunkOp
unfolding op_from
req_op req = op_from (from_le (take 1 (drop 8 req)))

abbrev pub key_len_of : List ℕ → ℕ
key_len_of req = from_le (take 2 (drop 10 req))

abbrev pub data_len_of : List ℕ → ℕ
data_len_of req = from_le (take 8 (drop 16 req))

abbrev pub sig_of : List ℕ → List ℕ
sig_of req = take sig_sz (drop 24 req)

-- struct chunksrv_resp, without its flags and hash
pub record Resp : Type 0 where
  pub magic : List ℕ
  pub resp_code : ErrCode
  pub nonce : List ℕ
  pub data_len : List ℕ

-- What is queued for a client: a response, or bytes that follow one.
pub data Output : Type 0 where
  resp : Resp → Output
  content : List ℕ → Output

-- The request that is read: its fixed part, and the records of variable length that follow.
pub record ChunkReq : Type 0 where
  pub creq : List ℕ
  pub key : List ℕ
  pub key2 : List ℕ
  pub creq_getpart : List ℕ

-- struct client. `user` is the C string; `table` has table_len bytes; `held` are the req_used
-- bytes that are read of the present record.
pub record ChunkClient : Type 0 where
  pub state : ClientState
  pub user : List ℕ
  pub table : List ℕ
  pub ssl : Bool
  pub read_want_write : Bool
  pub write_want_read : Bool
  pub first_req : Bool
  pub write_q : List Output
  pub writing : Bool
  pub req : ChunkReq
  pub held : List ℕ
  pub var_len : ℕ
  pub second_var : Bool

-- cli_alloc, with memory
unfoldable pub cli_alloc : ChunkClient
cli_alloc = record {
  state = read_fixed;
  user = [];
  table = [];
  ssl = false;
  read_want_write = false;
  write_want_read = false;
  first_req = true;
  write_q = [];
  writing = false;
  req = record { creq = []; key = []; key2 = []; creq_getpart = replicate getpart_sz 0 };
  held = [];
  var_len = 0;
  second_var = false;
}

abbrev pub is_nonempty : List ℕ → Bool
is_nonempty [] = false
is_nonempty (b ∷ bs) = true

abbrev pub is_get_part : ChunkOp → Bool
is_get_part get_part = true
is_get_part _ = false

abbrev pub is_cp : ChunkOp → Bool
is_cp cp = true
is_cp _ = false

-- req_len
unfoldable pub req_len : List ℕ → ℕ
unfolding req_op
req_len req = req_sz + key_len_of req + (if is_get_part (req_op req) then getpart_sz else 0)

-- What the signature of a request is over: the buffer that authcheck fills, the signature cleared,
-- as far as req_len.
unfoldable pub signed_part : ChunkReq → List ℕ
unfolding req_len
signed_part r =
    take (req_len r.creq) (take 24 r.creq ++ replicate sig_sz 0 ++ r.key ++ r.creq_getpart)

-- `b64hmac` is the HMAC-SHA1 with a key of a string of bytes, in base 64.
module _ (b64hmac : List ℕ → List ℕ → List ℕ) where
  -- authcheck of server.c
  unfoldable pub req_authcheck : ChunkReq → List ℕ → Bool
  unfolding signed_part
  req_authcheck r secret_key =
      same_bytes (c_str (sig_of r.creq)) (b64hmac secret_key (signed_part r))

-- valid_req_hdr
unfoldable pub valid_req_hdr : List ℕ → Bool
valid_req_hdr req =
    let len = length (c_str (sig_of req)) in
    same_bytes (magic_of req) chunkd_magic && leb 1 len && not (len == sig_sz)

-- What becomes of a socket write: so many of the queued buffers finished, nothing for now, a
-- read wanted first by SSL, or an error.
pub data WriteEnd : Type 0 where
  took : ℕ → WriteEnd
  again : WriteEnd
  want_read : WriteEnd
  broken : WriteEnd

abbrev is_empty : List Output → Bool
is_empty [] = true
is_empty (o ∷ os) = false

-- cli_writable, for buffers without callbacks that make work
unfoldable pub cli_writable : WriteEnd → ChunkClient → ChunkClient
cli_writable (took n) c =
    let q = drop n c.write_q in record c { write_q = q; writing = c.writing && not (is_empty q) }
cli_writable again c = c
cli_writable want_read c = record c { write_want_read = true }
cli_writable broken c = record c { state = dispose; write_q = [] }

-- cli_write_start
unfoldable pub cli_write_start : WriteEnd → ChunkClient → ChunkClient × Bool
unfolding cli_writable
cli_write_start sent c =
    if is_empty c.write_q
    then (c, true)
    else (if c.writing
        then (c, false)
        else (let c1 = cli_writable sent c in
            if is_empty c1.write_q then (c1, true) else (record c1 { writing = true }, false)))
