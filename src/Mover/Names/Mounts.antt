-- ===== src/Mover/Names/Mounts.antt =====
-- Which paths src/bin/file-mover.rs takes for one drive.
use web_davs_zk.Common.{◌≡◌, none, some, List, [], ◌∷◌, arith, list_eq, nat_eq}
use web_davs_zk.Common.Text.{Text}
use web_davs_zk.Io.Paths
use web_davs_zk.Io.Paths.{is_rooted, join}
use web_davs_zk.Mover.Names.{path_drive}

-- Two paths below two mounts that are not nested have one drive, if the first components of their
-- rests are spelled alike; the mounts themselves do not count.
path_drive_of_two_mounts :
    (m n p q part : Text) (ps qs : List Text)
    → Paths.strip_prefix m p ≡ some (part ∷ ps)
    → Paths.strip_prefix m q ≡ none
    → Paths.strip_prefix n q ≡ some (part ∷ qs)
    → path_drive (m ∷ n ∷ []) p ≡ path_drive (m ∷ n ∷ []) q
unfolding path_drive
path_drive_of_two_mounts m n p q part ps qs a b c = ground (arith, a, b, c)
