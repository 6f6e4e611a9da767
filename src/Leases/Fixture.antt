-- ===== src/Leases/Fixture.antt =====
-- A host, a repository and the records of one lease, for the examples.
use coordination_loop_harnes.Base.{
  ℕ, ◌+◌, ◌-◌, leb, false, ◌&&◌, Option, none, some, List, [], ◌∷◌, ◌++◌, map, String, Text, codes,
  decimal_from, if◌then◌else◌, Result, ok,
}
use coordination_loop_harnes.Base.Int.{pos}
use coordination_loop_harnes.Json.{
  Json, null, str, int, arr, obj, nil, cons, end, field, get, text?,
}
use coordination_loop_harnes.Util.Host.{Host, posix}
use coordination_loop_harnes.Util.Disk.{Disk, File}
use coordination_loop_harnes.Leases.Registry.{Moment, LockRoot, readable}

abbrev lower : ℕ → ℕ
lower c = if leb b'A' c && leb c b'Z' then c + 32 else c

abbrev upper_char : ℕ → ℕ
upper_char c = if leb b'a' c && leb c b'z' then c - 32 else c

abbrev pub text : String → Json
text s = str (codes s)

-- A document's bytes are told apart by its decision, which is enough here.
abbrev dump : Json → Result (List ℕ)
dump v = elim (text? (get "decision_ref" v)) [ none ↦ ok [] | some s ↦ ok s ]

-- A POSIX host with ASCII texts, whose instants are written as plain numbers and whose schemas
-- accept everything.
abbrev pub host : Host
host = record {
  os = posix;
  casefold = map lower;
  upper = map upper_char;
  int_of_text = λ s. none;
  resolve = λ p. ok p;
  nt_normpath = λ p. p;
  posix_normpath = λ p. p;
  windows_absolute = λ p. false;
  instant = λ s. some (decimal_from 0 s);
  schema_findings = λ version document. [];
  dumped = dump;
  sha256 = λ bytes. codes "00000000000000000000000000000000000000000000000000000000000000ff";
}

abbrev lease : ℕ → String → Json
lease generation decision_ref = obj (
    field "schema_version" (text "coord.repo-set-lease.v2") (
      field "lease_id" (text "L1") (
        field "run_id" (text "run") (
          field "state" (text "ACTIVE") (
            field "generation" (int (pos generation)) (
              field "created_utc" (text "10Z") (
                field "heartbeat_utc" (text "10Z") (
                  field "expires_utc" (text "20Z") (
                    field "owner" (text "me") (
                      field "coordination_repository" (text "acme/mail") (
                        field "repositories"
                          (arr (
                            cons
                              (obj (
                                field "repository" (text "acme/app")
                                  (field "mode" (text "WRITE") end)))
                              nil))
                          (field "local_scopes" (arr nil) (
                            field "infrastructure_scopes" (arr nil) (
                              field "active_writer_repository" (text "acme/app")
                                (field "decision_ref" (text decision_ref) end)))))))))))))))

abbrev pub first_lease : Json
first_lease = lease 1 "d1.json"

abbrev pub second_lease : Json
second_lease = lease 2 "d2.json"

abbrev decision : ℕ → String → Json → Json
decision n action previous = obj (
    field "schema_version" (text "coord.decision.v2") (
      field "run_id" (text "run") (
        field "status" (text "ACCEPTED") (
          field "sequence" (int (pos n)) (
            field "previous_decision_ref" previous (
              field "authorized_actions" (arr (cons (text action) nil)) (
                field "lease_id" (text "L1") (
                  field "lease_generation" (int (pos n)) (
                    field "lease_candidate_sha256"
                      (text "00000000000000000000000000000000000000000000000000000000000000ff")
                      (field "scope" (arr (cons (text "acme/app") (cons (text "acme/mail") nil)))
                        (field "markdown_sha256" (text "m") end)))))))))))

abbrev file : Option Json → File
file v = record { parsed = v; sha256 = codes "m" }

abbrev pub second_decision : Json
second_decision = decision 2 "lease:expand" (text "d1.json")

abbrev markdown_path : Text → Text
markdown_path [] = []
markdown_path (c ∷ []) = c ∷ []
markdown_path (c ∷ d ∷ []) = c ∷ d ∷ []
markdown_path (c ∷ d ∷ e ∷ []) = c ∷ d ∷ e ∷ []
markdown_path (c ∷ d ∷ e ∷ f ∷ []) = c ∷ d ∷ e ∷ f ∷ []
markdown_path (a ∷ b ∷ c ∷ d ∷ e ∷ []) = codes ".md"
markdown_path (a ∷ b ∷ c ∷ d ∷ e ∷ f ∷ s) = a ∷ markdown_path (b ∷ c ∷ d ∷ e ∷ f ∷ s)

-- Two decisions with their Markdown companions.
abbrev pub disk : Disk
disk = record {
  root = codes "/r";
  files =
      (codes "/r/d1.json", file (some (decision 1 "lease:acquire" null)))
      ∷ (codes "/r/d1.md", file none)
      ∷ (codes "/r/d2.json", file (some second_decision))
      ∷ (codes "/r/d2.md", file none)
      ∷ [];
  directories = codes "/r" ∷ [];
  join = λ p s. p ++ (b'/' ∷ s);
  resolve = λ p. ok p;
  markdown_of = markdown_path;
  separator = b'/';
}

abbrev pub moment : Moment
moment = record {
  disk = disk;
  now = 12;
  utc_now = codes "12Z";
  writer_binding = λ v. ok tt;
  git_guard = λ v. ok tt;
  entry_unchanged = ok tt;
}

abbrev pub empty_root : LockRoot
empty_root = record { entries = []; history = [] }

abbrev pub first_root : LockRoot
first_root = record {
  entries = record { name = codes "L1"; content = readable first_lease } ∷ [];
  history = [];
}
