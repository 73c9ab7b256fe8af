-- ===== src/Index/Operations/Entries.antt =====
-- What is read after an entry is saved or removed.
use auto_code.Common.{
  String, true, none, some, List, [], ◌∷◌, text_Eq, ok, guard, ◌>>◌, if◌then◌else◌, ◌≡◌, refl, ◌∙◌,
  ap, arith,
}
use auto_code.Contracts.Effects.{lookup, insert, lookup-insert}
use auto_code.Index.{IndexEntry, envelope, index_corrupt, IndexWorld, IndexContext, remove_key}
use auto_code.Index.Operations.{
  index_path, is_valid_entry, read_entry, load_entry, save_entry, remove_entry,
}

lookup-remove_key :
    {A : Type 0} (key : String) (entries : List (String × A))
    → lookup key (remove_key key entries) ≡ none
unfolding lookup remove_key
lookup-remove_key key [] = refl
lookup-remove_key key ((k, v) ∷ rest) = ground (arith, lookup-remove_key key rest)

module _ (x : IndexContext) where
  pub load_entry-save_entry :
      (repository_id : String) (e : IndexEntry) (w : IndexWorld)
      → is_valid_entry x repository_id e ≡ true
      → load_entry x repository_id (save_entry x repository_id e w) ≡ ok (some e)
  unfolding load_entry save_entry read_entry
  load_entry-save_entry repository_id e w valid =
      let path = index_path x repository_id in
      let there : lookup path (insert path (envelope e) w.entries) ≡ some (envelope e) =
        lookup-insert path path (envelope e) w.entries
        ∙ ap (λ b. if b then some (envelope e) else lookup path w.entries)
            ((text_Eq.beq_iff path path).1 refl) in
      ap (read_entry x repository_id) there ∙ ap (λ b. guard b index_corrupt >> ok (some e)) valid

  pub load_entry-remove_entry :
      (repository_id : String) (w : IndexWorld)
      → load_entry x repository_id (remove_entry x repository_id w) ≡ ok none
  unfolding load_entry remove_entry read_entry
  load_entry-remove_entry repository_id w =
      ap (read_entry x repository_id) (lookup-remove_key (index_path x repository_id) w.entries)
