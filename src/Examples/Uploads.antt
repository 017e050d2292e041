-- ===== src/Examples/Uploads.antt =====
-- The theorems on uploads, dates and the start at concrete inputs.
use web_davs_zk.Common.{
  ◌+◌, ◌%◌, ◌^◌, true, false, none, some, [], ◌∷◌, ◌≡◌, ◌↔◌, ◌⊎◌, inl, arith, refl, list_beq, ◌==◌,
  nat_eq, list_eq, if◌then◌else◌,
}
use mathlib.Core.List.{flatten}
use web_davs_zk.Common.Text.{Text, text}
use web_davs_zk.Config.{default_config}
use web_davs_zk.Io.{Os, Result, ok, err}
use web_davs_zk.Io.Paths.{parent, parts_of, starts_with, file_name}
use web_davs_zk.Autofs.Upload.{
  Hashing, AtomicFile, done, new, total, is_mismatch, expected_digest, should_commit, commit, flush,
  drop_file, sync, write_bytes, write_buf, map_err,
}
use web_davs_zk.Autofs.Upload.Commit.{synced}
use web_davs_zk.Autofs.Upload.Chunks.{Hashed, write_buf-Hashed}
use web_davs_zk.Autofs.Upload.Session.{flush_call, call, calls, calls_after_publishing}
use web_davs_zk.Autofs.Upload.Body.{send, flush-send, flush-send_of_partial}
use web_davs_zk.Autofs.Create.{create_temp}
use web_davs_zk.Autofs.Create.Temp.{CreateNewIsClean, Ends, create_temp-Ends}
use web_davs_zk.Startup.{Outcome, resolved, guard_certs_outside_root}
use web_davs_zk.Startup
use web_davs_zk.Startup.Guard.{guard_certs_outside_root-done, guard_certs_outside_root-relative}
use web_davs_zk.Examples.{disk, missing}

-- A hash that is the text itself.
abbrev pub plain_hash : Hashing
plain_hash = record {
  sha256 = λ b. b;
  hex_encode = λ b. b;
  hex_decode = some;
  base64_decode = some;
}

abbrev upload : AtomicFile
upload = new (text "/d/t") (text "/d/x") (some 2) none 7 false

write_buf-Hashed_example :
    let (r, g, s') = write_buf plain_hash disk ((1 ∷ 2 ∷ []) ∷ []) upload 0 in
    (g.file ≡ some 7)
    × (g.written ≡ (upload.written + total ((1 ∷ 2 ∷ []) ∷ [])) % 2 ^ 64)
    × ((outcome : Result (Unit {0})) × (r ≡ map_err outcome)
        × Hashed plain_hash disk 7
            (flatten ((1 ∷ 2 ∷ []) ∷ []))
            upload.hasher
            0
            outcome
            g.hasher
            s')
write_buf-Hashed_example = write_buf-Hashed plain_hash disk 7 ((1 ∷ 2 ∷ []) ∷ []) upload 0 refl

abbrev empty_upload : AtomicFile
empty_upload = new (text "/d/t") (text "/d/x") none none 7 false

published_at_once : (calls plain_hash disk (flush_call ∷ []) empty_upload 0).0.committed ≡ true
unfolding calls call flush commit should_commit is_mismatch
published_at_once = refl

calls_after_publishing_example :
    let (f, t) = calls plain_hash disk (flush_call ∷ []) empty_upload 0 in
    let (g, u) = calls plain_hash disk (flush_call ∷ []) f t in
    (u ≡ t) × (drop_file plain_hash disk g u ≡ t)
calls_after_publishing_example =
    calls_after_publishing plain_hash disk (flush_call ∷ []) (flush_call ∷ []) (text "/d/t")
      (text "/d/x") none none 7 false 0 published_at_once

sent : (send plain_hash disk ((1 ∷ 2 ∷ []) ∷ []) upload 0).0 ≡ done tt
unfolding send write_bytes
sent = refl

flushed :
    (flush plain_hash disk
      (send plain_hash disk ((1 ∷ 2 ∷ []) ∷ []) upload 0).1
      (send plain_hash disk ((1 ∷ 2 ∷ []) ∷ []) upload 0).2).1.committed
    ≡ true
unfolding send write_bytes flush commit should_commit is_mismatch
flushed = refl

flush-send_example :
    ((upload.expected_size ≡ none)
      ⊎ (upload.expected_size ≡ some (total ((1 ∷ 2 ∷ []) ∷ []) % 2 ^ 64)))
    × ((expected_digest plain_hash none ≡ none)
        ⊎ (expected_digest plain_hash none
            ≡ some (plain_hash.sha256 (flatten ((1 ∷ 2 ∷ []) ∷ [])))))
    × ((disk.rename (text "/d/t") (text "/d/x") (
          synced plain_hash disk
            (send plain_hash disk ((1 ∷ 2 ∷ []) ∷ []) upload 0).1
            (send plain_hash disk ((1 ∷ 2 ∷ []) ∷ []) upload 0).2)).0
        ≡ ok tt)
flush-send_example =
    flush-send plain_hash disk ((1 ∷ 2 ∷ []) ∷ []) (text "/d/t") (text "/d/x") (some 2) none 7 false
      0 sent flushed

-- One of two bytes has arrived, and is to be synchronised.
abbrev cut_upload : AtomicFile
cut_upload = new (text "/d/t") (text "/d/x") (some 2) none 7 true

cut_sent : (send plain_hash disk ((1 ∷ []) ∷ []) cut_upload 0).0 ≡ done tt
unfolding send write_bytes
cut_sent = refl

cut_synced :
    let (r, f, t) = send plain_hash disk ((1 ∷ []) ∷ []) cut_upload 0 in
    (sync plain_hash disk f.fsync f.file t).0 ≡ ok tt
unfolding send write_bytes
cut_synced = refl

flush-send_of_partial_example :
    let (r, f, t) = send plain_hash disk ((1 ∷ []) ∷ []) cut_upload 0 in
    let (r', g, u) = flush plain_hash disk f t in
    (r' ≡ done tt)
    × (u ≡ synced plain_hash disk f t)
    × (drop_file plain_hash disk g u ≡ (disk.remove_file (text "/d/t") u).1)
flush-send_of_partial_example =
    flush-send_of_partial plain_hash disk ((1 ∷ []) ∷ []) (text "/d/t") (text "/d/x") 2 none 7 true
      0 cut_sent (omega arith) (inl refl) cut_synced

disk_is_clean : CreateNewIsClean disk
disk_is_clean path s t e h = cc

create_temp-Ends_example :
    Ends disk disk_is_clean
      (text "/d")
      (text "x")
      0
      16
      (create_temp disk (text "/d") (text "/d/x") 0)
unfolding file_name parts_of list_beq
create_temp-Ends_example = create_temp-Ends disk disk_is_clean (text "/d") (text "/d/x") 0

guard_certs_outside_root-done_example :
    (guard_certs_outside_root disk default_config 0 ≡ (Startup.done tt, 0)) ↔ (
      (root : Text) × (disk.canonicalize default_config.root 0 ≡ ok root)
      × (starts_with root (resolved disk default_config.cert 0) ≡ false)
      × (starts_with root (resolved disk default_config.key 0) ≡ false))
guard_certs_outside_root-done_example = guard_certs_outside_root-done disk default_config 0 refl

-- Only the root exists.
abbrev bare_disk : Os
bare_disk = record disk {
  canonicalize = λ p s. if p == text "/srv/webdav" then ok p else err missing;
}

guard_certs_outside_root-relative_example :
    guard_certs_outside_root bare_disk default_config 0 ≡ (Startup.done tt, 0)
unfolding list_beq parent parts_of
guard_certs_outside_root-relative_example =
    guard_certs_outside_root-relative bare_disk default_config 0 (text "/srv/webdav") (text "certs")
      (text "certs") missing refl refl refl refl refl refl refl refl refl refl
