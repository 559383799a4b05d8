-- ===== src/Tests/Resolve.antt =====
-- The resolution of a path on a small file system.
use remote_merge.Prelude.{true, some, ok, ◌==◌, list_eq, nat_eq, if◌then◌else◌, ◌≡◌, refl}
use remote_merge.Text.{Bytes, codes}
use remote_merge.Resolve.{ResolveError, EntryKind, ExistingKind, ResolvedPath, PathOps}
use remote_merge.Resolve.Walk.{resolve_path}
use remote_merge.Resolve.Real.{ResultReal, resolve_path-ResultReal}

-- /srv is a directory, /srv/link leads to "data", and /srv/data is a file.
abbrev small_ops : PathOps
small_ops = record {
  entry_kind = λ path. ok (
      if path == codes "/srv"
      then EntryKind.directory
      else if path == codes "/srv/link"
      then EntryKind.symlink
      else if path == codes "/srv/data"
      then EntryKind.regular_file
      else EntryKind.missing);
  can_search = λ _. ok true;
  read_link = λ _. ok (codes "data");
}

link_followed :
    resolve_path small_ops (codes "/srv") (codes "link")
    ≡ ok (ResolvedPath.symlink (codes "data") (codes "/srv/data") (some ExistingKind.file))
unfolding resolve_path remote_merge.Text.split nat_eq list_eq
    remote_merge.Resolve.joined_within_limits remote_merge.Resolve.joined
    remote_merge.Content.is_utf8
link_followed = refl

resolve_path-ResultReal_example :
    ResultReal (ResolvedPath.symlink (codes "data") (codes "/srv/data") (some ExistingKind.file))
resolve_path-ResultReal_example =
    resolve_path-ResultReal small_ops (codes "/srv") (codes "link")
      (ResolvedPath.symlink (codes "data") (codes "/srv/data") (some ExistingKind.file))
      link_followed
