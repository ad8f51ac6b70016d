-- ===== src/Files/Audit.antt =====
-- The audit log of task3_filesystem_security/audit.c. No caller passes a null pointer.
use samuel_basnet_240512_st.Prelude.{Bytes, codes, [], ◌∷◌, ◌++◌, if◌then◌else◌}
use samuel_basnet_240512_st.Files.Disk.{Disk, Io}

abbrev pub name_or_dash : Bytes → Bytes
name_or_dash [] = codes "-"
name_or_dash (c ∷ cs) = c ∷ cs

unfoldable pub log_line : Bytes → Bytes → Bytes → Bytes → Bytes → Bytes
log_line now username action target result =
    codes "["
    ++ (now
        ++ (codes "] user="
            ++ (name_or_dash username
                ++ (codes " action="
                    ++ (action
                        ++ (codes " target="
                            ++ (target ++ (codes " result=" ++ (result ++ codes "\n")))))))))

-- A log that cannot be opened is left as it is, with a warning on the screen.
unfoldable pub log_action : Io → Bytes → Bytes → Bytes → Bytes → Disk → Disk
log_action io username action target result d =
    if io.audit_append
    then record d { audit = d.audit ++ log_line io.now username action target result }
    else d
