-- ===== src/Leases/Protected/Fixture.antt =====
-- A custody of the second generation of a lease, for the examples.
use coordination_loop_harnes.Base.{ℕ, some, ok, true, false, [], ◌∷◌, codes}
use coordination_loop_harnes.Util.Disk.{Disk}
use coordination_loop_harnes.Leases.Fixture.{disk, moment, first_lease, second_lease}
use coordination_loop_harnes.Leases.Protected.Tree.{
  Stat, Metadata, node, Contents, done, item, Tree, Observer,
}
use coordination_loop_harnes.Leases.Protected.Custody.{Custody, Snapshot, issuance_root}
use coordination_loop_harnes.Base.Int.{pos}
use coordination_loop_harnes.Leases.Registry.{readable}

abbrev pub stat_at : ℕ → ℕ → Stat
stat_at inode mode = record {
  device = 1;
  inode = inode;
  mode = mode;
  uid = 0;
  gid = 0;
  size = 9;
  mtime_ns = 5;
  ctime_ns = 5;
  links = 1;
}

-- A directory of mode 0o755 and a file of mode 0o644
abbrev directory_at : ℕ → Metadata
directory_at inode = record { status = some (stat_at inode 16_877); attributes = some [] }

abbrev file_at : ℕ → Metadata
file_at inode = record {
  status = some (stat_at inode 33_188);
  attributes = some (codes "user.note" ∷ []);
}

abbrev contents : Contents
contents = item (codes "L1.lease.json") (some (1, 3)) (node (file_at 3) done) (
    item (codes "lease-history") (some (1, 4))
      (node (directory_at 4) (item (codes "1.json") (some (1, 5)) (node (file_at 5) done) done))
      done)

abbrev pub tree : Tree
tree = record {
  ancestors = (codes "/", directory_at 1) ∷ [];
  path = codes "/l";
  root = directory_at 2;
  is_dir = true;
  contents = contents;
}

abbrev pub observer : Observer
observer = record { has_listxattr = true; euid = 1000 }

abbrev locks : Disk
locks = record disk {
  root = codes "/l";
  files =
      (codes "/l/lease-history/L1/1.json", record { parsed = some first_lease; sha256 = codes "m" })
      ∷ [];
}

abbrev repository : Disk
repository = record disk {
  files =
      (
        codes "/r/CLH-ISSUANCE-ROOT.json",
        record { parsed = some issuance_root; sha256 = codes "m" },
      )
      ∷ disk.files;
}

abbrev pub custody : Custody
custody = record {
  observer = observer;
  lock_tree = tree;
  repo_tree = tree;
  lock_tree_after = tree;
  repo_tree_after = tree;
  mutex_exists = false;
  entries = record { name = codes "L1"; content = readable second_lease } ∷ [];
  locks = locks;
  raw = ok (codes "d2.json");
  moment = record moment { disk = repository };
}

abbrev pub snapshot : Snapshot
snapshot = record {
  lease_id = codes "L1";
  generation = pos 2;
  state = "ACTIVE";
  lease_sha256 = codes "00000000000000000000000000000000000000000000000000000000000000ff";
  verification = "PROTECTED_CLH_SNAPSHOT_ONLY";
  custody_resolved = false;
  runtime_gate = "AUTHENTICATED_CONSUMER_BOUNDARY_UNQUALIFIED";
}
