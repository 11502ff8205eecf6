-- ===== src/HeaderNames.antt =====
-- The header names and content types that src/metaheader.cpp looks for.
use s3fs_fuse.Base.{ℕ, List, [], ◌∷◌}

abbrev pub mtime_tag : List ℕ
mtime_tag =
    b'x' ∷ b'-' ∷ b'a' ∷ b'm' ∷ b'z' ∷ b'-' ∷ b'm' ∷ b'e' ∷ b't' ∷ b'a' ∷ b'-' ∷ b'm' ∷ b't' ∷ b'i'
    ∷ b'm' ∷ b'e' ∷ []

abbrev pub goog_mtime_tag : List ℕ
goog_mtime_tag =
    b'x' ∷ b'-' ∷ b'a' ∷ b'm' ∷ b'z' ∷ b'-' ∷ b'm' ∷ b'e' ∷ b't' ∷ b'a' ∷ b'-' ∷ b'g' ∷ b'o' ∷ b'o'
    ∷ b'g' ∷ b'-' ∷ b'r' ∷ b'e' ∷ b's' ∷ b'e' ∷ b'r' ∷ b'v' ∷ b'e' ∷ b'd' ∷ b'-' ∷ b'f' ∷ b'i'
    ∷ b'l' ∷ b'e' ∷ b'-' ∷ b'm' ∷ b't' ∷ b'i' ∷ b'm' ∷ b'e' ∷ []

abbrev pub ctime_tag : List ℕ
ctime_tag =
    b'x' ∷ b'-' ∷ b'a' ∷ b'm' ∷ b'z' ∷ b'-' ∷ b'm' ∷ b'e' ∷ b't' ∷ b'a' ∷ b'-' ∷ b'c' ∷ b't' ∷ b'i'
    ∷ b'm' ∷ b'e' ∷ []

abbrev pub atime_tag : List ℕ
atime_tag =
    b'x' ∷ b'-' ∷ b'a' ∷ b'm' ∷ b'z' ∷ b'-' ∷ b'm' ∷ b'e' ∷ b't' ∷ b'a' ∷ b'-' ∷ b'a' ∷ b't' ∷ b'i'
    ∷ b'm' ∷ b'e' ∷ []

abbrev pub mode_tag : List ℕ
mode_tag =
    b'x' ∷ b'-' ∷ b'a' ∷ b'm' ∷ b'z' ∷ b'-' ∷ b'm' ∷ b'e' ∷ b't' ∷ b'a' ∷ b'-' ∷ b'm' ∷ b'o' ∷ b'd'
    ∷ b'e' ∷ []

abbrev pub permissions_tag : List ℕ
permissions_tag =
    b'x' ∷ b'-' ∷ b'a' ∷ b'm' ∷ b'z' ∷ b'-' ∷ b'm' ∷ b'e' ∷ b't' ∷ b'a' ∷ b'-' ∷ b'p' ∷ b'e' ∷ b'r'
    ∷ b'm' ∷ b'i' ∷ b's' ∷ b's' ∷ b'i' ∷ b'o' ∷ b'n' ∷ b's' ∷ []

abbrev pub goog_mode_tag : List ℕ
goog_mode_tag =
    b'x' ∷ b'-' ∷ b'a' ∷ b'm' ∷ b'z' ∷ b'-' ∷ b'm' ∷ b'e' ∷ b't' ∷ b'a' ∷ b'-' ∷ b'g' ∷ b'o' ∷ b'o'
    ∷ b'g' ∷ b'-' ∷ b'r' ∷ b'e' ∷ b's' ∷ b'e' ∷ b'r' ∷ b'v' ∷ b'e' ∷ b'd' ∷ b'-' ∷ b'p' ∷ b'o'
    ∷ b's' ∷ b'i' ∷ b'x' ∷ b'-' ∷ b'm' ∷ b'o' ∷ b'd' ∷ b'e' ∷ []

abbrev pub uid_tag : List ℕ
uid_tag =
    b'x' ∷ b'-' ∷ b'a' ∷ b'm' ∷ b'z' ∷ b'-' ∷ b'm' ∷ b'e' ∷ b't' ∷ b'a' ∷ b'-' ∷ b'u' ∷ b'i' ∷ b'd'
    ∷ []

abbrev pub owner_tag : List ℕ
owner_tag =
    b'x' ∷ b'-' ∷ b'a' ∷ b'm' ∷ b'z' ∷ b'-' ∷ b'm' ∷ b'e' ∷ b't' ∷ b'a' ∷ b'-' ∷ b'o' ∷ b'w' ∷ b'n'
    ∷ b'e' ∷ b'r' ∷ []

abbrev pub goog_uid_tag : List ℕ
goog_uid_tag =
    b'x' ∷ b'-' ∷ b'a' ∷ b'm' ∷ b'z' ∷ b'-' ∷ b'm' ∷ b'e' ∷ b't' ∷ b'a' ∷ b'-' ∷ b'g' ∷ b'o' ∷ b'o'
    ∷ b'g' ∷ b'-' ∷ b'r' ∷ b'e' ∷ b's' ∷ b'e' ∷ b'r' ∷ b'v' ∷ b'e' ∷ b'd' ∷ b'-' ∷ b'p' ∷ b'o'
    ∷ b's' ∷ b'i' ∷ b'x' ∷ b'-' ∷ b'u' ∷ b'i' ∷ b'd' ∷ []

abbrev pub gid_tag : List ℕ
gid_tag =
    b'x' ∷ b'-' ∷ b'a' ∷ b'm' ∷ b'z' ∷ b'-' ∷ b'm' ∷ b'e' ∷ b't' ∷ b'a' ∷ b'-' ∷ b'g' ∷ b'i' ∷ b'd'
    ∷ []

abbrev pub group_tag : List ℕ
group_tag =
    b'x' ∷ b'-' ∷ b'a' ∷ b'm' ∷ b'z' ∷ b'-' ∷ b'm' ∷ b'e' ∷ b't' ∷ b'a' ∷ b'-' ∷ b'g' ∷ b'r' ∷ b'o'
    ∷ b'u' ∷ b'p' ∷ []

abbrev pub goog_gid_tag : List ℕ
goog_gid_tag =
    b'x' ∷ b'-' ∷ b'a' ∷ b'm' ∷ b'z' ∷ b'-' ∷ b'm' ∷ b'e' ∷ b't' ∷ b'a' ∷ b'-' ∷ b'g' ∷ b'o' ∷ b'o'
    ∷ b'g' ∷ b'-' ∷ b'r' ∷ b'e' ∷ b's' ∷ b'e' ∷ b'r' ∷ b'v' ∷ b'e' ∷ b'd' ∷ b'-' ∷ b'p' ∷ b'o'
    ∷ b's' ∷ b'i' ∷ b'x' ∷ b'-' ∷ b'g' ∷ b'i' ∷ b'd' ∷ []

abbrev pub content_type_tag : List ℕ
content_type_tag =
    b'C' ∷ b'o' ∷ b'n' ∷ b't' ∷ b'e' ∷ b'n' ∷ b't' ∷ b'-' ∷ b'T' ∷ b'y' ∷ b'p' ∷ b'e' ∷ []

abbrev pub content_length_tag : List ℕ
content_length_tag =
    b'C' ∷ b'o' ∷ b'n' ∷ b't' ∷ b'e' ∷ b'n' ∷ b't' ∷ b'-' ∷ b'L' ∷ b'e' ∷ b'n' ∷ b'g' ∷ b't' ∷ b'h'
    ∷ []

abbrev pub last_modified_tag : List ℕ
last_modified_tag =
    b'L' ∷ b'a' ∷ b's' ∷ b't' ∷ b'-' ∷ b'M' ∷ b'o' ∷ b'd' ∷ b'i' ∷ b'f' ∷ b'i' ∷ b'e' ∷ b'd' ∷ []

abbrev pub x_directory : List ℕ
x_directory =
    b'a' ∷ b'p' ∷ b'p' ∷ b'l' ∷ b'i' ∷ b'c' ∷ b'a' ∷ b't' ∷ b'i' ∷ b'o' ∷ b'n' ∷ b'/' ∷ b'x' ∷ b'-'
    ∷ b'd' ∷ b'i' ∷ b'r' ∷ b'e' ∷ b'c' ∷ b't' ∷ b'o' ∷ b'r' ∷ b'y' ∷ []

abbrev pub unix_directory : List ℕ
unix_directory =
    b'h' ∷ b't' ∷ b't' ∷ b'p' ∷ b'd' ∷ b'/' ∷ b'u' ∷ b'n' ∷ b'i' ∷ b'x' ∷ b'-' ∷ b'd' ∷ b'i' ∷ b'r'
    ∷ b'e' ∷ b'c' ∷ b't' ∷ b'o' ∷ b'r' ∷ b'y' ∷ []

abbrev pub binary_stream : List ℕ
binary_stream =
    b'b' ∷ b'i' ∷ b'n' ∷ b'a' ∷ b'r' ∷ b'y' ∷ b'/' ∷ b'o' ∷ b'c' ∷ b't' ∷ b'e' ∷ b't' ∷ b'-' ∷ b's'
    ∷ b't' ∷ b'r' ∷ b'e' ∷ b'a' ∷ b'm' ∷ []

abbrev pub application_stream : List ℕ
application_stream =
    b'a' ∷ b'p' ∷ b'p' ∷ b'l' ∷ b'i' ∷ b'c' ∷ b'a' ∷ b't' ∷ b'i' ∷ b'o' ∷ b'n' ∷ b'/' ∷ b'o' ∷ b'c'
    ∷ b't' ∷ b'e' ∷ b't' ∷ b'-' ∷ b's' ∷ b't' ∷ b'r' ∷ b'e' ∷ b'a' ∷ b'm' ∷ []

abbrev pub text_plain : List ℕ
text_plain = b't' ∷ b'e' ∷ b'x' ∷ b't' ∷ b'/' ∷ b'p' ∷ b'l' ∷ b'a' ∷ b'i' ∷ b'n' ∷ []
