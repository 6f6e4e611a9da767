-- ===== src/Leases/Protected/Tree.antt =====
-- `_protected_tree`: the walk over an authority root that refuses what others could change.
use coordination_loop_harnes.Base.{
  ℕ, ◌/◌, ◌%◌, ltb, ◌==◌, Bool, false, ◌&&◌, ◌||◌, not, Option, none, some, List, [], ◌∷◌, ◌++◌,
  Text, codes, text_eq, starts_with, length, any, all, if◌then◌else◌, Result, ok, err, value_error,
  type_error, os_error, runtime_error, key_error, raise_if, ◌>>=◌, ◌>>◌,
}
use coordination_loop_harnes.Util.Host.{Host, is_posix}

-- `os.lstat`, as far as an identity records it
pub record Stat : Type 0 where
  pub device : ℕ
  pub inode : ℕ
  pub mode : ℕ
  pub uid : ℕ
  pub gid : ℕ
  pub size : ℕ
  pub mtime_ns : ℕ
  pub ctime_ns : ℕ
  pub links : ℕ

-- What is asked of an entry: `lstat` and the names of its extended attributes; `none` where the
-- call raises `OSError`.
pub record Metadata : Type 0 where
  pub status : Option Stat
  pub attributes : Option (List Text)

-- An entry and what a scan of it finds, in the order of the scan: for each name, the device and the
-- inode that the scan reports (`none` where that raises), and the entry. `broken` is where the scan
-- raises.
mutual
  pub data Node : Type 0 where
    node : Metadata → Contents → Node

  pub data Contents : Type 0 where
    done broken : Contents
    item : Text → Option (ℕ × ℕ) → Node → Contents → Contents

-- An authority root: the directories above it from the top, itself, and `root.is_dir()`.
pub record Tree : Type 0 where
  pub ancestors : List (Text × Metadata)
  pub path : Text
  pub root : Metadata
  pub is_dir : Bool
  pub contents : Contents

-- Who looks: `callable(os.listxattr)` and `os.geteuid()`.
pub record Observer : Type 0 where
  pub has_listxattr : Bool
  pub euid : ℕ

abbrev pub Identities : Type 0
Identities = List (Text × Stat)

-- `stat.S_IFMT` and the kinds it names; `S_IWGRP` and `S_IWOTH`
abbrev pub kind : Stat → ℕ
kind s = s.mode / 4096 % 16

abbrev pub is_directory : Stat → Bool
is_directory s = kind s == 4

abbrev pub is_regular : Stat → Bool
is_regular s = kind s == 8

abbrev pub is_link : Stat → Bool
is_link s = kind s == 10

abbrev pub others_write : Stat → Bool
others_write s = s.mode / 16 % 2 == 1 || s.mode / 2 % 2 == 1

unfoldable pub mutable : Stat → Bool
mutable s =
    is_link s
    || not (s.uid == 0)
    || others_write s
    || not (is_directory s || is_regular s)
    || (is_regular s && not (s.links == 1))

-- `p in s`
abbrev pub contains : Text → Text → Bool
contains [] p = starts_with [] p
contains (c ∷ s) p = starts_with (c ∷ s) p || contains s p

abbrev pub stat_eq : Stat → Stat → Bool
stat_eq a b =
    a.device == b.device
    && a.inode == b.inode
    && a.mode == b.mode
    && a.uid == b.uid
    && a.gid == b.gid
    && a.size == b.size
    && a.mtime_ns == b.mtime_ns
    && a.ctime_ns == b.ctime_ns
    && a.links == b.links

-- `identities[path] = ...`
unfoldable pub set_identity : Text → Stat → Identities → Identities
set_identity path s [] = (path, s) ∷ []
set_identity path s ((q, t) ∷ ids) =
    if text_eq q path then (q, s) ∷ ids else (q, t) ∷ set_identity path s ids

abbrev pub same_at : Identities → Text × Stat → Bool
same_at ids (path, s) = any (λ e. text_eq e.0 path && stat_eq e.1 s) ids

-- `==` of two such dictionaries
unfoldable pub same_identities : Identities → Identities → Bool
same_identities a b = length a == length b && all (same_at b) a

abbrev pub below : Text → Text → Text
below path name = path ++ (b'/' ∷ name)

-- `except OSError` around the scan
unfoldable pub traversal : Result Identities → Result Identities
traversal (ok ids) = ok ids
traversal (err (os_error _)) =
    err (value_error "HOLD_ROOT_PROTECTION_UNPROVEN: authority traversal failed")
traversal (err (value_error m)) = err (value_error m)
traversal (err (type_error m)) = err (type_error m)
traversal (err (runtime_error m)) = err (runtime_error m)
traversal (err (key_error m)) = err (key_error m)

module _ (h : Host) where
  abbrev pub names_acl : Text → Bool
  names_acl name = contains (h.casefold name) (codes "acl")

  -- `check`
  unfoldable pub check_attributes : Option (List Text) → Result (Unit {0})
  check_attributes none =
      err (value_error "HOLD_ROOT_PROTECTION_UNPROVEN: ACL evidence unavailable")
  check_attributes (some names) =
      raise_if (any names_acl names)
        (value_error "HOLD_ROOT_PROTECTION_UNPROVEN: ACL qualification unavailable")

  unfoldable pub check : Metadata → Result Stat
  check m = elim m.status [
    | none ↦ err (os_error "lstat failed")
    | some s ↦
        raise_if (mutable s)
          (value_error "HOLD_ROOT_PROTECTION_UNPROVEN: mutable or aliased authority entry")
        >> (check_attributes m.attributes >> ok s)
  ]

  -- What the scan said of an entry against what `lstat` says.
  unfoldable pub check_classified : Option (ℕ × ℕ) → Metadata → Result Stat
  check_classified none m = err (os_error "stat failed")
  check_classified (some (device, inode)) m = check m >>= λ s.
      raise_if (not (device == s.device && inode == s.inode))
        (value_error "HOLD_ROOT_PROTECTION_UNPROVEN: entry identity changed")
      >> ok s

  -- The scan of one directory.
  unfoldable pub scan : Text → Contents → Identities → Result Identities
  scan path done ids = ok ids
  scan path broken ids = err (os_error "scandir failed")
  scan path (item name classified (node m sub) rest) ids = do
    s ← check_classified classified m
    let seen = set_identity (below path name) s ids
    raise_if (ltb 4096 (length seen))
        (value_error "HOLD_ROOT_PROTECTION_UNPROVEN: authority inventory exceeds bound")
    scan path rest seen

  abbrev pub is_directory_of : Metadata → Bool
  is_directory_of m = elim m.status [ none ↦ false | some s ↦ is_directory s ]

  -- The directories that a scan has put on the stack: the last one found is taken off first, and
  -- what is found in it before the others.
  unfoldable pub visit : Text → Contents → Identities → Result Identities
  visit path done ids = ok ids
  visit path broken ids = ok ids
  visit path (item name classified (node m sub) rest) ids = visit path rest ids >>= λ seen.
      if is_directory_of m
      then (scan (below path name) sub seen >>= visit (below path name) sub)
      else ok seen

  unfoldable pub check_above : List (Text × Metadata) → Identities → Result Identities
  check_above [] ids = ok ids
  check_above ((path, m) ∷ ms) ids = check m >>= λ s. check_above ms (set_identity path s ids)

  -- `_protected_tree`
  unfoldable pub protected_tree : Observer → Tree → Result Identities
  protected_tree o t = do
    raise_if (not (is_posix h.os) || not o.has_listxattr || o.euid == 0)
        (value_error "HOLD_ROOT_PROTECTION_UNPROVEN: privileged or unsupported observer")
    above ← check_above t.ancestors []
    s ← check t.root
    raise_if (not t.is_dir)
        (value_error "HOLD_ROOT_PROTECTION_UNPROVEN: authority root is not a directory")
    traversal (scan t.path t.contents (set_identity t.path s above) >>= visit t.path t.contents)
