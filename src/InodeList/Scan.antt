-- ===== src/InodeList/Scan.antt =====
-- The free inode list: what `checkAndGetFreeINode` and `saveInListIfPossible` do to an array with
-- zeros in front.
use naofs.Prelude.{
  ℕ, zero, suc, ◌+◌, ◌-◌, ◌<◌, ◌≡◌, refl, ap, ◌∙◌, ◌≢◌, List, [], ◌∷◌, ◌++◌, arith, length,
  replicate, true, false, ◌==◌, if◌then◌else◌, ne→==-false, length-read_words,
}
use naofs.Params.{inode_nos_per_block, inode_list_block}
use naofs.Disk.{Disk, fetch}
use naofs.Meta.{make_inode_list_block}
use naofs.Blocks.Zeros.{set-zeros, zeros-suc}
use naofs.InodeList.{
  minus_one, scan, check_and_get_free_inode, take_inode, get_new_inode, first_used,
  save_in_list_if_possible,
}

scan-zeros : (z y : ℕ) (r : List ℕ) → y ≢ 0 → scan (replicate z 0 ++ (y ∷ r)) ≡ (suc z, y)
unfolding scan replicate
scan-zeros zero y r h = rw (ne→==-false y 0 h)
scan-zeros (suc z) y r h =
    ap (λ p. (p.0 + 1, p.1)) (scan-zeros z y r h) ∙ ap (λ k. (k, y)) (omega arith)

-- The scan ends on zero only at the end of the array.
scan-zero : (xs : List ℕ) → (scan xs).1 ≡ 0 → (scan xs).0 ≡ length xs
unfolding scan
scan-zero [] h = refl
scan-zero (x ∷ xs) h = ground (arith, scan-zero xs)

first_used-zeros : (z y : ℕ) (r : List ℕ) → y ≢ 0 → first_used (replicate z 0 ++ (y ∷ r)) ≡ z
unfolding first_used replicate
first_used-zeros zero y r h = rw (ne→==-false y 0 h)
first_used-zeros (suc z) y r h = ap suc (first_used-zeros z y r h)

first_used-replicate : (z : ℕ) → first_used (replicate z 0) ≡ z
unfolding first_used replicate
first_used-replicate zero = refl
first_used-replicate (suc z) = ap suc (first_used-replicate z)

-- On an array with `z` zeros in front of the number `y`, `checkAndGetFreeINode` takes `y` and
-- clears it; but if `y` stands last it returns `(size_t)-1` and leaves the array as it is.
pub check_and_get_free_inode-zeros :
    (z y : ℕ) (r : List ℕ)
    → y ≢ 0
    → check_and_get_free_inode (replicate z 0 ++ (y ∷ r)) ≡ (
        if suc z == inode_nos_per_block
        then (minus_one, replicate z 0 ++ (y ∷ r))
        else (y, replicate (suc z) 0 ++ r))
unfolding check_and_get_free_inode
check_and_get_free_inode-zeros z y r h =
    let e : suc z - 1 ≡ z = omega arith in
    rw (scan-zeros z y r h, e, set-zeros z y 0 r, zeros-suc z r) refl

-- The number that it returns is never 0,
check_and_get-ne_zero :
    (nos : List ℕ)
    → length nos ≡ inode_nos_per_block
    → ((check_and_get_free_inode nos).0 == 0) ≡ false
unfolding check_and_get_free_inode
check_and_get-ne_zero nos h = ground (arith, scan-zero nos)

-- `getNewINode` never looks for more free inodes: on every disk it goes on with what the list
-- gives, `(size_t)-1` if that is empty.
pub get_new_inode-no_refill :
    (d : Disk) (now type mode uid gid : ℕ)
    → let buffer = fetch d inode_list_block in
      let (free, nos) = check_and_get_free_inode (make_inode_list_block buffer) in
      get_new_inode d now type mode uid gid ≡ take_inode d now type mode uid gid free nos buffer
unfolding get_new_inode make_inode_list_block
get_new_inode-no_refill d now type mode uid gid =
    rw
      (check_and_get-ne_zero (make_inode_list_block (fetch d inode_list_block))
        (length-read_words 2 inode_nos_per_block 0 (fetch d inode_list_block)))
      refl

-- What `saveInListIfPossible` does to an array with `z` zeros in front of a number that is not
-- zero: with no room it refuses, else the number goes in front of the others.
pub save_in_list_if_possible-zeros :
    (n z y : ℕ) (r : List ℕ)
    → y ≢ 0
    → z + length r < inode_nos_per_block
    → save_in_list_if_possible n (replicate z 0 ++ (y ∷ r)) ≡ (
        if z == 0
        then (false, replicate z 0 ++ (y ∷ r))
        else (true, replicate (z - 1) 0 ++ (n ∷ y ∷ r)))
unfolding save_in_list_if_possible
save_in_list_if_possible-zeros n zero y r h lt = rw (first_used-zeros zero y r h) refl
save_in_list_if_possible-zeros n (suc z) y r h lt =
    let e : suc z - 1 ≡ z = omega arith in
    rw
      (
        first_used-zeros (suc z) y r h,
        ne→==-false (suc z) inode_nos_per_block (omega arith),
        e,
        ← zeros-suc z (y ∷ r),
        set-zeros z 0 n (y ∷ r),
      )
      refl

-- An inode number that is freed into a list with room and another number is the next to be handed
-- out, and the list is then what it was.
pub check_and_get-save :
    (n z y : ℕ) (r : List ℕ)
    → n ≢ 0
    → y ≢ 0
    → suc z + length r < inode_nos_per_block
    → check_and_get_free_inode (save_in_list_if_possible n (replicate (suc z) 0 ++ (y ∷ r))).1
      ≡ (n, replicate (suc z) 0 ++ (y ∷ r))
check_and_get-save n z y r hn hy lt =
    let e : suc z - 1 ≡ z = omega arith in
    rw
      (
        save_in_list_if_possible-zeros n (suc z) y r hy lt,
        ne→==-false (suc z) 0 (omega arith),
        e,
        check_and_get_free_inode-zeros z n (y ∷ r) hn,
        ne→==-false (suc z) inode_nos_per_block (omega arith),
      )
      refl

-- Into an empty list nothing is saved, though `saveInListIfPossible` says that it was: the number
-- is lost.
pub save_in_list_if_possible-empty :
    (n : ℕ)
    → save_in_list_if_possible n (replicate inode_nos_per_block 0)
      ≡ (true, replicate inode_nos_per_block 0)
unfolding save_in_list_if_possible
save_in_list_if_possible-empty n = rw (first_used-replicate inode_nos_per_block) refl
