-- ===== src/Files/Menu/Entries.antt =====
-- What the choices of the session menu of main.c owe the audit log.
use samuel_basnet_240512_st.Prelude.{
  ◌++◌, [], List, ◌∷◌, Bytes, codes, Bool, true, false, ◌||◌, Option, none, some, ◌≡◌,
  if◌then◌else◌, str_eq,
}
use samuel_basnet_240512_st.Files.Disk.{max_filename, Io}
use samuel_basnet_240512_st.Files.Ops.Logged.{Logged}
use samuel_basnet_240512_st.Files.Menu.{
  welcome, Printed, text, content, World, Round, again, return, fault, read_line,
}

-- The entry of a choice: the action where it succeeds, the action where it fails, the target, and
-- what the user is told where it fails.
pub record Entry : Type 0 where
  pub action : Bytes
  pub failing : Bytes
  pub target : Bytes
  pub refusal : Bytes

abbrev pub entry_for : (action target refusal : Bytes) → Option Entry
entry_for action target refusal =
    some (record { action = action; failing = action; target = target; refusal = refusal })

abbrev pub not_found_or_denied : Bytes
not_found_or_denied = codes "Failed: file not found or permission denied."

abbrev pub create_refusal : Bytes
create_refusal = codes "Failed: invalid permission string, or file already exists."

abbrev pub chmod_refusal : Bytes
chmod_refusal = codes "Failed: file not found or invalid permission string."

abbrev pub encrypt_refusal : Bytes
encrypt_refusal = codes "Failed: file not found, permission denied, or already encrypted."

abbrev pub decrypt_refusal : Bytes
decrypt_refusal = codes "Failed: file not found, permission denied, or not encrypted."

-- What each choice writes to the log. An append that fails is logged as a write.
abbrev pub entry_of : (choice filename : Bytes) → Option Entry
entry_of choice filename =
    if str_eq choice (codes "1")
    then entry_for (codes "CREATE") filename create_refusal
    else if str_eq choice (codes "2")
    then entry_for (codes "READ") filename not_found_or_denied
    else if str_eq choice (codes "3") || str_eq choice (codes "4")
    then some (record {
      action = if str_eq choice (codes "4") then codes "APPEND" else codes "WRITE";
      failing = codes "WRITE";
      target = filename;
      refusal = not_found_or_denied;
    })
    else if str_eq choice (codes "5")
    then entry_for (codes "DELETE") filename not_found_or_denied
    else if str_eq choice (codes "6")
    then entry_for (codes "CHMOD") filename chmod_refusal
    else if str_eq choice (codes "7")
    then entry_for (codes "ENCRYPT") filename encrypt_refusal
    else if str_eq choice (codes "8")
    then entry_for (codes "DECRYPT") filename decrypt_refusal
    else if str_eq choice (codes "9")
    then entry_for (codes "LOGOUT") (codes "-") []
    else none

-- `p` is the message `refusal`.
abbrev pub is_refusal : Bytes → Printed → Bool
is_refusal refusal (text t) = str_eq t refusal
is_refusal refusal (welcome username group) = false
is_refusal refusal (content bytes) = false

-- One message has been printed, and it is the refusal exactly where the call has failed.
pub data Told (refusal : Bytes) (before after : List Printed) : Bool → Type 0 where
  told_success :
      (p : Printed)
      → is_refusal refusal p ≡ false
      → after ≡ before ++ p ∷ []
      → Told refusal before after true
  told_refusal : after ≡ before ++ text refusal ∷ [] → Told refusal before after false

-- Where there is an entry, it has been added to the log, with `SUCCESS` exactly where the user is not
-- told of a failure; where there is none, the disk is as it was.
abbrev pub EntryMade : Io → Bytes → Option Entry → World → World → Type 0
EntryMade io u none w w' = w'.disk ≡ w.disk
EntryMade io u (some e) w w' =
    (ok : Bool) × Logged io u e.target e.action e.failing ok w.disk w'.disk
    × Told e.refusal w.printed w'.printed ok

-- A round whose program goes on has made its entry; a fault has changed nothing.
abbrev pub Audited : Io → Bytes → Option Entry → World → Round Unit → Type 0
Audited io u e w (again w') = EntryMade io u e w w'
Audited io u e w (return a w') = EntryMade io u e w w'
Audited io u e w (fault w') = w'.disk ≡ w.disk

-- The choice of a round, and the file name that is typed behind it.
abbrev pub typed_choice : World → Bytes
typed_choice w = (read_line 8 w.input).0

abbrev pub typed_name : World → Bytes
typed_name w = (read_line max_filename (read_line 8 w.input).1).0
