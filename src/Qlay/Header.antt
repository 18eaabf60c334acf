-- ===== src/Qlay/Header.antt =====
-- tools/nanoql_drive.py: `DriveFile`, `qdos_header` and the metadata of `collect_drive_files`.
use nano_ql.Base.{
  ℕ, ◌+◌, ◌-◌, Bool, ◌&&◌, ◌∷◌, ◌++◌, leb, if◌then◌else◌, codes, length, drop, replicate, slice,
  bytes_eq, Bytes, to_be, from_be,
}

pub record DriveFile : Type 0 where
  pub name : Bytes
  pub content : Bytes
  pub executable : Bool
  pub data_space : ℕ

-- The 64 bytes that `struct.pack_into` and the slice assignment fill, for a name of at most 48
-- bytes: `qdos_name` allows 36.
unfoldable pub qdos_header : DriveFile → ℕ → Bytes
qdos_header file total_length =
    to_be 4 total_length
    ++ (0
          ∷ (if file.executable then 1 else 0)
          ∷ to_be 4 (if file.executable then file.data_space else 0)
        ++ (replicate 4 0
            ++ (to_be 2 (length file.name) ++ (file.name ++ replicate (48 - length file.name) 0))))

-- `len(file.data) + 64`
abbrev pub default_length : DriveFile → ℕ
default_length file = length file.content + 64

-- `data[-8:-4] == b"XTcc"`: the trailer that a QL compiler leaves.
unfoldable pub is_executable : Bytes → Bool
is_executable bytes =
    leb 8 (length bytes)
    && bytes_eq (slice (length bytes - 8) (length bytes - 4) bytes) (codes "XTcc")

unfoldable pub drive_file : Bytes → Bytes → DriveFile
drive_file name bytes = record {
  name = name;
  content = bytes;
  executable = is_executable bytes;
  data_space = if is_executable bytes then from_be (drop (length bytes - 4) bytes) else 0;
}
