-- ===== src/Files/Ops/Create.antt =====
-- Creating a file, and reading it.
use samuel_basnet_240512_st.Prelude.{Bytes, codes, Bool}
use samuel_basnet_240512_st.Files.Disk.{Disk, Io}
use samuel_basnet_240512_st.Files.Audit.{log_action}
use samuel_basnet_240512_st.Files.Perms.{create_file_meta}
use samuel_basnet_240512_st.Files.Ops.{write_file, storage_path}

module _ (io : Io) (u g f perm content : Bytes) (d : Disk) where
  abbrev recorded : Bool × Disk
  recorded = create_file_meta io f u g perm d

  abbrev made : Disk
  made = write_file (storage_path f) content recorded.1

  abbrev created : Disk
  created = log_action io u (codes "CREATE") f (codes "SUCCESS") made
