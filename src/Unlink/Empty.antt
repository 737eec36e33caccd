-- ===== src/Unlink/Empty.antt =====
-- The emptying of a directory that is removed by force.
use naofs.Prelude.{
  ℕ, zero, suc, ◌*◌, ◌/◌, ◌<◌, ◌≤◌, ◌≡◌, ◌↔◌, ◌≢◌, refl, false, le→ltb-false, ℤ, pos, arith,
}
use naofs.Params.{directory_entry_size}
use naofs.Inode.{t_directory}
use naofs.Cache.{Fs, done}
use naofs.System.{Env, M, inode_at}
use naofs.Unlink.{empty_loop, empty_dir, validate_and_empty}

-- The loop over no more than 128 entries has no round.
empty_loop-few :
    (fuel : ℕ) (e : Env) (validate : ℕ → M ℤ) (dir entries : ℕ) (s : Fs)
    → entries < 129
    → empty_loop fuel e validate dir entries (2 * directory_entry_size) s ≡ done (pos 0, s)
unfolding empty_loop
empty_loop-few zero e validate dir entries s h = refl
empty_loop-few (suc fuel) e validate dir entries s h =
    rw (le→ltb-false 128 entries (omega arith), empty_loop) refl

-- In a directory of at most 128 entries, `.` and `..` among them, `emptyDir` removes nothing and
-- returns 0: its counter is in bytes and starts at 128, and it stops at the number of entries.
pub empty_dir-few :
    (e : Env) (validate : ℕ → M ℤ) (dir : ℕ) (s : Fs)
    → (s.pool.inode dir).size < 129 * directory_entry_size
    → empty_dir e validate dir s ≡ done (pos 0, s)
unfolding empty_dir inode_at
empty_dir-few e validate dir s h =
    let entries = (s.pool.inode dir).size / directory_entry_size in
    empty_loop-few entries e validate dir entries s (omega arith)

-- Without force a directory passes exactly when it is not the root and has no entry but `.` and
-- `..`, and then nothing changes.
pub validate_and_empty-pos_iff :
    (depth : ℕ) (e : Env) (dir : ℕ) (s : Fs)
    → (validate_and_empty (suc depth) e false dir s ≡ done (pos 0, s)) ↔ (
        ((s.pool.inode dir).inode_number ≢ 0)
        × ((s.pool.inode dir).size ≤ 2 * directory_entry_size)
        × ((s.pool.inode dir).type ≡ t_directory))
unfolding validate_and_empty inode_at
validate_and_empty-pos_iff depth e dir s = (λ h. ground arith, λ h. ground arith)
