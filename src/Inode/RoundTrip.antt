-- ===== src/Inode/RoundTrip.antt =====
-- An inode written as bytes is read back, and the copy in memory loses nothing of it.
use naofs.Prelude.{
  ℕ, ◌≡◌, refl, sym, ap, ◌∙◌, List, [], ◌∷◌, ◌++◌, length, get_or, take, slice, Fits,
  decode_fields-encode_fields, length-encode_fields, take-length_append, get_or-length_append,
}
use naofs.Params.{sizeof_inode}
use naofs.Inode.{
  INode, InCoreINode, blocks_in_inode, widths, members, of_members, encode, decode,
  insert_disk_inode_data, get_disk_inode_data,
}

-- Every member fits its C type, and there are thirteen block numbers.
pub record IsInode (i : INode) : Type 0 where
  pub fits : Fits widths (members i)
  pub blocks : length i.data_block_nums ≡ blocks_in_inode

slice-members : (xs : List ℕ) (n y : ℕ) → length xs ≡ n → slice 0 n (xs ++ (y ∷ [])) ≡ xs
unfolding slice
slice-members xs n y e = ap (λ k. take k (xs ++ (y ∷ []))) (sym e) ∙ take-length_append xs (y ∷ [])

get_or-members : (xs : List ℕ) (n y : ℕ) → length xs ≡ n → get_or (xs ++ (y ∷ [])) n 0 ≡ y
get_or-members xs n y e =
    ap (λ k. get_or (xs ++ (y ∷ [])) k 0) (sym e) ∙ get_or-length_append xs y 0 []

of_members-members : (i : INode) → IsInode i → of_members (members i) ≡ i
unfolding slice
of_members-members i v = λ d. record i {
  data_block_nums = slice-members i.data_block_nums blocks_in_inode i.size v.blocks d;
  size = get_or-members i.data_block_nums blocks_in_inode i.size v.blocks d;
}

-- The bytes of an inode whose members fit their types, with anything behind them, are read back
-- as the inode.
pub decode-encode : (i : INode) (rest : List ℕ) → IsInode i → decode (encode i ++ rest) ≡ i
unfolding encode decode
decode-encode i rest v =
    ap of_members (decode_fields-encode_fields widths (members i) rest v.fits)
    ∙ of_members-members i v

pub length-encode : (i : INode) → IsInode i → length (encode i) ≡ sizeof_inode
unfolding encode
length-encode i v = length-encode_fields widths (members i) v.fits

-- `insertDiskInodeData` and `getDiskINodeData` are inverse on what the disk keeps, and the first
-- leaves the mutex, the reference count and the dirty bits of the in-core inode alone.
pub get_disk_inode_data-insert :
    (i : INode) (c : InCoreINode)
    → let c' = insert_disk_inode_data i c in
      (get_disk_inode_data c' ≡ i)
      × (c'.locked ≡ c.locked)
      × (c'.reference_count ≡ c.reference_count)
      × (c'.inode_changed ≡ c.inode_changed)
      × (c'.file_data_changed ≡ c.file_data_changed)
      × (insert_disk_inode_data (get_disk_inode_data c) c ≡ c)
unfolding insert_disk_inode_data get_disk_inode_data
get_disk_inode_data-insert i c = (refl, refl, refl, refl, refl, refl)
