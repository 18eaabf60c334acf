-- ===== src/Drive/Tests.antt =====
-- Paths, downloads and uploads on a concrete board.
use nano_ql.Base.{
  ℕ, zero, suc, String, ◌≡◌, refl, sym, ap, ◌≢◌, true, false, none, some, [], ◌∷◌, ◌++◌, arith,
  length, take, drop, bytes_eq, Bytes, to_be, from_be,
}
use nano_ql.Base.Exec.{out_of_rounds, ok, err, is_ok, ok_or}
use nano_ql.Drive.Download.{data_block, get_data_request, get_loop, download_loop, receive_file}
use nano_ql.Drive.Download.Laws.{ServedFile, download_loop_ends, receive_file-file}
use nano_ql.Drive.Files.{filesystem_info}
use nano_ql.Drive.RemotePath.{
  replace, strip_left, strip_right, strip, split, is_dotted, is_unsupported, check_path,
  remote_path_bytes,
}
use nano_ql.Drive.RemotePath.Laws.{
  IsDrivePath, remote_path_bytes-IsDrivePath, remote_path_bytes_self,
}
use nano_ql.Drive.Upload.{put_data_request, check_ack, put_blocks, filesystem_put}
use nano_ql.Drive.Upload.Laws.{StagedFile, put_blocks-staged, TimeoutLaws, filesystem_put-timeout}
use nano_ql.Link.Bench.{put, serve, act, say, answer, bench, link, bench-TimeLaws, be4-digits}

abbrev path : Bytes
path = b'\\' ∷ b'a' ∷ b'/' ∷ b'b' ∷ b'/' ∷ []

normal_path : remote_path_bytes path false ≡ ok (b'a' ∷ b'/' ∷ b'b' ∷ [])
unfolding remote_path_bytes strip strip_left strip_right replace check_path is_dotted split
    is_unsupported bytes_eq
normal_path = refl

remote_path_bytes-IsDrivePath_example : IsDrivePath (b'a' ∷ b'/' ∷ b'b' ∷ [])
remote_path_bytes-IsDrivePath_example =
    remote_path_bytes-IsDrivePath path (b'a' ∷ b'/' ∷ b'b' ∷ []) normal_path

remote_path_bytes_self_example :
    remote_path_bytes (b'a' ∷ b'/' ∷ b'b' ∷ []) false ≡ ok (b'a' ∷ b'/' ∷ b'b' ∷ [])
remote_path_bytes_self_example = remote_path_bytes_self path (b'a' ∷ b'/' ∷ b'b' ∷ []) normal_path

download_loop_ends_example : (download_loop bench 3 3 0 [] link).0 ≢ err out_of_rounds
download_loop_ends_example =
    download_loop_ends bench (λ b e. bench-TimeLaws.transact_quiet b e) 3 [] link

take-length-take : (n : ℕ) (xs : Bytes) → take (length (take n xs)) xs ≡ take n xs
take-length-take zero xs = refl
take-length-take (suc n) [] = refl
take-length-take (suc n) (x ∷ xs) = ap (λ t. x ∷ t) (take-length-take n xs)

data_block-reply :
    (invalid oversize : String) (requested : ℕ) (block : Bytes)
    → is_ok (data_block invalid oversize requested (length block ∷ block)) ≡ true
    → ok_or [] (data_block invalid oversize requested (length block ∷ block)) ≡ block
unfolding data_block
data_block-reply invalid oversize requested block h = ground arith

served_block :
    (received requested : ℕ) (file : Bytes) (invalid oversize : String)
    → let r = length (take requested (drop received file)) ∷ take requested (drop received file) in
      let block = data_block invalid oversize requested r in
      is_ok block ≡ true → ok_or [] block ≡ take (length (ok_or [] block)) (drop received file)
served_block received requested file invalid oversize h =
    rw (data_block-reply invalid oversize requested (take requested (drop received file)) h)
      (sym (take-length-take requested (drop received file)))

bench-ServedFile : ServedFile bench
unfolding bench answer act say serve get_data_request to_be
bench-ServedFile = record {
  file = λ e. e.file;
  serves = λ received requested e invalid oversize low.
      rw (be4-digits received low)
        (λ sent good. served_block received requested e.file invalid oversize good);
  keeps = λ received requested e. refl;
}

received : is_ok (receive_file bench 3 link).0 ≡ true
unfolding receive_file download_loop get_loop data_block get_data_request to_be bench answer act say
    serve link
received = refl

whole_file : length (bench-ServedFile.file link.env) ≡ 3
unfolding bench-ServedFile link
whole_file = refl

receive_file-file_example : (receive_file bench 3 link).0 ≡ ok (bench-ServedFile.file link.env)
receive_file-file_example =
    receive_file-file bench bench-ServedFile 3 link whole_file (omega arith) received

bench-StagedFile : StagedFile bench
unfolding bench answer act put put_data_request to_be
bench-StagedFile = record { staged = λ e. e.staged; appends = λ sent block e at' h. refl }

abbrev upload : Bytes
upload = 5 ∷ 6 ∷ 7 ∷ []

sent : is_ok (put_blocks bench 1 0 none upload link).0 ≡ true
unfolding put_blocks put_data_request check_ack to_be from_be bench answer act say put link
sent = refl

empty_stage : length (bench-StagedFile.staged link.env) ≡ 0
unfolding bench-StagedFile link
empty_stage = refl

put_blocks-staged_example :
    bench-StagedFile.staged (put_blocks bench 1 0 none upload link).1.env
    ≡ bench-StagedFile.staged link.env ++ upload
put_blocks-staged_example =
    put_blocks-staged bench bench-StagedFile 1 0 none upload link (omega arith) empty_stage sent

bench-TimeoutLaws : TimeoutLaws bench
unfolding bench
bench-TimeoutLaws = record { set_succeeds = λ ms e. refl; set_holds = λ ms e. refl }

abbrev no_crc : Bytes → ℕ → ℕ
no_crc _ _ = 0

informed : is_ok (filesystem_info bench link).0 ≡ true
unfolding filesystem_info bytes_eq bench answer act say link
informed = refl

filesystem_put-timeout_example :
    bench.timeout (filesystem_put bench no_crc 1 (some upload) path link).1.env
    ≡ bench.timeout (filesystem_info bench link).1.env
filesystem_put-timeout_example =
    filesystem_put-timeout bench bench-TimeoutLaws no_crc 1 upload path link (ap is_ok normal_path)
      (omega arith) informed
