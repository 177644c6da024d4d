-- ===== src/Proto/World.antt =====
-- A small world for src/proto.c in which all memory is granted.
use nftp_codec.Prelude.{ℕ, List, [], some, none, replicate, length-replicate, true, refl}
use nftp_codec.File.Write.Memory.{Files, memory_system}
use nftp_codec.Codec.Encode.{null_ptr}
use nftp_codec.Proto.{Env, State}
use nftp_codec.Proto.Sender.Made.{Plenty}
use nftp_codec.Proto.Example.{table, last_state}

-- All memory is there.
abbrev pub world : Env
world = record {
  sys = memory_system;
  files = table ℕ;
  senders = table (List ℕ);
  memory = record {
    grants = λ place n. true;
    buffer = λ n. some (replicate n 0);
    cells = some (replicate 32 (record { base = null_ptr; len = 0 }));
    exbuf = some (replicate 14 0);
  };
  base_name = λ path. path;
}

pub world-Plenty : Plenty world
world-Plenty = record {
  grants = λ k n. refl;
  buffer = λ n. (replicate n 0, refl, length-replicate n 0);
  row = replicate 32 (record { base = null_ptr; len = 0 });
  cells = refl;
  full = refl;
  bytes = replicate 14 0;
  exbuf = refl;
  exbuf_size = refl;
}

-- A state without transfers, on some disk.
abbrev pub quiet : Files → State world
quiet disk = record {
  recvdir = none;
  blocksz = 2;
  files = [];
  senderfiles = [];
  fcb_reg = last_state.fcb_reg;
  fcbs = last_state.fcbs;
  ctxs = [];
  disk = disk;
  ran = [];
}
