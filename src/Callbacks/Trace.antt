-- ===== src/Callbacks/Trace.antt =====
-- The program behind the callbacks, from request to request.
use naofs.Prelude.{ℕ, ◌≡◌, inl, inr, true, false, [], Bool-cases, ℤ}
use mathlib.Core.Path.{subst}
use naofs.Cache.{Run, done, fault, deadlock, Fs}
use naofs.Cache.Locks.{Ends, AllUnlocked}
use naofs.Cache.Returns.{Returns, Except}
use naofs.Files.{FileTable}
use naofs.System.{Env}
use naofs.System.Returns.{Leaves-run}
use naofs.Unlink.Locks.{unlink_file-Stays, unlink_dir-Stays}
use naofs.Rename.Locks.{rename_file-Stays}
use naofs.Callbacks.{
  World, Context, unlink_callback, rename_callback, unlink_dir_callback, Request, getattr, mkdir,
  readdir, create, open_, read, truncate, utimens, chown, chmod, write, unlink, release_fh, rename,
  rmdir, Reply, status, serve,
}
use naofs.Callbacks.Locks.{is_removal, IsDirectoryTruncated, IsLeft, serve-Ends}

-- A removal that returns, with its answer.
removed :
    (files : FileTable) (r : Run (ℤ × Fs))
    → Returns (λ (r : ℤ × Fs). Except [] r.1.pool) r
    → Returns
        (λ (r : (Reply × FileTable) × Fs). AllUnlocked r.1.pool)
        (elim r [
          | done (a, s') ↦ done ((status a, files), s')
          | fault ↦ fault
          | deadlock ↦ deadlock
        ])
removed files (done r) h = λ m. h m tt
removed files fault h = tt
removed files deadlock h = tt

module _ (depth : ℕ) (e : Env) (context : Context) (files : FileTable) (s : Fs) where
  abbrev Quiet : Run ((Reply × FileTable) × Fs) → Type 0
  Quiet = Returns (λ (r : (Reply × FileTable) × Fs). AllUnlocked r.1.pool)

  serve-removed :
      (q : Request)
      → is_removal q ≡ true
      → AllUnlocked s.pool
      → Quiet (serve depth e context files q s)
  unfolding serve unlink_callback rename_callback unlink_dir_callback
  serve-removed (unlink file) k p =
      removed files _ (Leaves-run [] [] _ s (unlink_file-Stays e file) (λ m off. p m))
  serve-removed (rename from to) k p =
      removed files _ (Leaves-run [] [] _ s (rename_file-Stays depth e from to) (λ m off. p m))
  serve-removed (rmdir file) k p =
      removed files _ (Leaves-run [] [] _ s (unlink_dir-Stays depth e file false) (λ m off. p m))
  serve-removed (getattr path) k p = cc
  serve-removed (mkdir path mode) k p = cc
  serve-removed (readdir path) k p = cc
  serve-removed (create path mode flags fh) k p = cc
  serve-removed (open_ path flags fh) k p = cc
  serve-removed (read size offset fh) k p = cc
  serve-removed (truncate path size) k p = cc
  serve-removed utimens k p = cc
  serve-removed (chown path uid gid) k p = cc
  serve-removed (chmod path mode) k p = cc
  serve-removed (write buf size offset fh) k p = cc
  serve-removed (release_fh fh) k p = cc

-- Behind an answer no mutex is held if none was before, unless a directory was to be truncated.
serve-AllUnlocked :
    (depth : ℕ) (e : Env) (context : Context) (q : Request) (reply : Reply) (w w' : World)
    → serve depth e context w.files q w.fs ≡ done ((reply, w'.files), w'.fs)
    → (IsDirectoryTruncated q reply → ⊥)
    → AllUnlocked w.fs.pool
    → AllUnlocked w'.fs.pool
serve-AllUnlocked depth e context q reply w w' h regular p = elim (Bool-cases (is_removal q)) [
  | inl k ↦
      subst (Quiet depth e context w.files w.fs) h
        (serve-removed depth e context w.files w.fs q k p)
  | inr k ↦ left (subst (Ends (IsLeft q)) h (serve-Ends depth e context w.files q w.fs k p))
]
  where
    left : IsLeft q ((reply, w'.files), w'.fs) → AllUnlocked w'.fs.pool
    left (inl d) = absurd (regular d)
    left (inr a) = a

-- One request that is answered. The truncation of a directory is left out: it leaves a mutex held.
infix 40 ◌⟶◌ ◌⟶*◌
pub data ◌⟶◌ : World → World → Type 0 where
  answer :
      {w w' : World} (depth : ℕ) (e : Env) (context : Context) (q : Request) (reply : Reply)
      → serve depth e context w.files q w.fs ≡ done ((reply, w'.files), w'.fs)
      → (IsDirectoryTruncated q reply → ⊥)
      → w ⟶ w'

-- Requests one behind the other, from any users at any times.
pub data ◌⟶*◌ : World → World → Type 0 where
  here : {w : World} → w ⟶* w
  further : {w1 w2 w3 : World} → w1 ⟶ w2 → w2 ⟶* w3 → w1 ⟶* w3

⟶-AllUnlocked : {w w' : World} → w ⟶ w' → AllUnlocked w.fs.pool → AllUnlocked w'.fs.pool
⟶-AllUnlocked {w} {w'} (answer depth e context q reply h regular) p =
    serve-AllUnlocked depth e context q reply w w' h regular p

-- If no inode is locked, none is locked behind any sequence of answered requests, removals and
-- errors among them, in which no directory is truncated.
pub ⟶*-AllUnlocked : (w w' : World) → w ⟶* w' → AllUnlocked w.fs.pool → AllUnlocked w'.fs.pool
⟶*-AllUnlocked w w' here p = p
⟶*-AllUnlocked w w' (further {w2 = w2} a r) p = ⟶*-AllUnlocked w2 w' r (⟶-AllUnlocked a p)
