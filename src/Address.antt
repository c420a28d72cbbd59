-- ===== src/Address.antt =====
-- The parts of an address: the constructor of Address in util/address.cpp.
mod Parts
mod Tests
use aliyun_odps_sdk_cpp.Prelude.{
  Bool, true, false, ℕ, Bytes, bytes_eq, codes, List, [], ◌∷◌, Option, none, some, take, drop, ◌==◌,
  if◌then◌else◌,
}
use aliyun_odps_sdk_cpp.Result.{Result, ok, err, local_error}
use aliyun_odps_sdk_cpp.Strings.{next_part}

pub record Address : Type 0 where
  pub whole_path : Bytes
  pub host : Bytes
  pub protocol : Bytes
  pub port : Bytes
  pub path : Bytes
  pub port_present : Bool

-- The two slashes behind the colon may be missing.
unfoldable pub skip_slashes : Bytes → Bytes
skip_slashes s = if bytes_eq (take 2 s) (codes "//") then drop 2 s else s

-- What stands before the first slash, and the rest with the slash.
unfoldable pub cut_path : Bytes → Bytes × Bytes
cut_path [] = ([], [])
cut_path (c ∷ cs) =
    let (before, behind) = cut_path cs in if c == 47 then ([], c ∷ cs) else (c ∷ before, behind)

abbrev pub with_rest : ℕ → Bytes → Option (Bytes × Bytes) → Option (Bytes × Bytes)
with_rest c cs none = if c == 58 then some ([], cs) else none
with_rest c cs (some (before, behind)) = some (c ∷ before, behind)

-- What stands before and behind the last colon (`rfind`).
unfoldable pub cut_port : Bytes → Option (Bytes × Bytes)
cut_port [] = none
cut_port (c ∷ cs) = with_rest c cs (cut_port cs)

unfoldable pub with_port : Bytes → Bytes → Bytes → Bytes → Option (Bytes × Bytes) → Address
with_port s protocol path host none = record {
  whole_path = s;
  host = host;
  protocol = protocol;
  port = [];
  path = path;
  port_present = false;
}
with_port s protocol path host (some (before, behind)) = record {
  whole_path = s;
  host = before;
  protocol = protocol;
  port = behind;
  path = path;
  port_present = true;
}

unfoldable pub with_host : Bytes → Bytes → Bytes × Bytes → Address
with_host s protocol (host, path) = with_port s protocol path host (cut_port host)

unfoldable pub with_protocol : Bytes → Bytes × Option Bytes → Result Address
with_protocol s (part, none) = err local_error
with_protocol s ([], some rest) = err local_error
with_protocol s (c ∷ cs, some rest) = ok (with_host s (c ∷ cs) (cut_path (skip_slashes rest)))

unfoldable pub new_address : Bytes → Result Address
new_address s = with_protocol s (next_part (codes ":") s)
