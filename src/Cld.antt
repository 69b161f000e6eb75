-- ===== src/Cld.antt =====
-- The lock and file service: cld/ of the repository. This file has the wire-level codes of
-- lib/cld_msg_rpc.x and the records of cld/cldb.h that the handlers work on.
pub mod Db
pub mod Lock
pub mod Session
pub mod Disposal
pub mod Requests
pub mod Dir
pub mod Signature
pub mod Server
use hail.Base.{ℕ, ◌+◌, ◌-◌, ◌/◌, ◌%◌, ◌^◌, Bool, true, false, List, ◌==◌, if◌then◌else◌}

-- enum cle_err_codes
pub data Code : Type 0 where
  ok_code sess_exists sess_inval db_err bad_pkt inode_inval name_inval oom fh_inval data_inval :
      Code
  lock_inval lock_conflict lock_pending mode_inval inode_exists dir_notempty : Code
  internal_err timeout sig_inval : Code

-- enum cld_msg_op
pub data Op : Type 0 where
  nop new_sess open_op get_meta get_op put_op close_op del_op lock_op unlock_op trylock ack_op : Op
  end_sess ping not_master event_op ack_frag : Op

-- Session numbers are the eight bytes of a SID, inode numbers and handles are 64-bit numbers.
-- `flags` has the bits CLFL_SHARED and CLFL_PENDING.
pub record RawLock : Type 0 where
  pub inum : ℕ
  pub sid : ℕ
  pub fh : ℕ
  pub ctime : ℕ
  pub flags : ℕ

pub record RawHandle : Type 0 where
  pub sid : ℕ
  pub fh : ℕ
  pub inum : ℕ
  pub mode : ℕ
  pub events : ℕ

pub record RawInode : Type 0 where
  pub inum : ℕ
  pub name : List ℕ
  pub size : ℕ
  pub version : ℕ
  pub time_create : ℕ
  pub time_modify : ℕ
  pub flags : ℕ

pub record RawSession : Type 0 where
  pub sid : ℕ
  pub addr : ℕ
  pub user : List ℕ
  pub last_contact : ℕ
  pub next_fh : ℕ
  pub next_seqid_in : ℕ
  pub next_seqid_out : ℕ

-- Bit `k` of a flag word.
abbrev pub has_bit : ℕ → ℕ → Bool
has_bit k w = w / 2 ^ k % 2 == 1

-- CE_UPDATED, CE_DELETED and CE_LOCKED
pub data Event : Type 0 where
  updated deleted locked : Event

-- The messages that the server sends.
pub data Msg : Type 0 where
  resp : Op → Code → ℕ → Msg
  open_resp : ℕ → ℕ → Msg
  get_resp : ℕ → RawInode → List ℕ → Msg
  event : ℕ → Event → Msg
