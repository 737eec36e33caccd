-- ===== src/Tools/Reader.antt =====
-- What the tool sees of a device.
use naofs.Prelude.{ℕ, ◌≡◌, refl, ap, ◌∙◌, false, true, some, List, [], ◌∷◌}
use naofs.Disk.{Device, Disk, ok, setup_disk, init_device_accessor}
use naofs.Inode.{INode}
use naofs.Meta.{make_free_disk_list_block, make_inode_list_block}
use naofs.Tools.{
  unset, print_a_free_inode, print_all, print_free_list, print_free_inode_list,
  print_inode_for_sanity, first_inode, disk_reader,
}

setup_disk-ok :
    (d : Disk)
    → d.available ≡ false
    → d.opened ≡ false
    → d.device.usable ≡ true
    → setup_disk d ≡ (ok, record d { opened = true; available = true })
unfolding setup_disk init_device_accessor
setup_disk-ok d a o u = simp (a, o, u)

-- No number is below an unset count of blocks.
print_all-unset :
    (fresh : INode) (d : Disk)
    → d.available ≡ true
    → print_all unset fresh (ok, d)
      ≡ some
          (make_free_disk_list_block d.junk, make_inode_list_block d.junk, print_a_free_inode fresh)
unfolding print_all print_free_list print_free_inode_list print_inode_for_sanity first_inode
print_all-unset fresh d a = simp a

-- With its variables unset the tool reads no block of any device that it can open: it prints what
-- fresh memory holds, as numbers.
pub disk_reader-unset :
    (device_of : List ℕ → Device) (program name : List ℕ) (fresh : INode) (d : Disk)
    → d.available ≡ false
    → d.opened ≡ false
    → (device_of name).usable ≡ true
    → disk_reader unset device_of (program ∷ name ∷ []) fresh d
      ≡ some
          (make_free_disk_list_block d.junk, make_inode_list_block d.junk, print_a_free_inode fresh)
unfolding disk_reader
disk_reader-unset device_of program name fresh d a o u =
    let d1 : Disk = record d { device = device_of name } in
    ap (print_all unset fresh) (setup_disk-ok d1 a o u)
    ∙ print_all-unset fresh (record d1 { opened = true; available = true }) refl
