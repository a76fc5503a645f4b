-- ===== src/ControlParse/Tests.antt =====
-- Runs of tools/controlparse.c.
use static_distro.ControlParse.Safe.{IsFilled, controlparse_parsefd-Safe}
use static_distro.ControlParse.{
  ControlParse, File, ok, null_deref, controlparse_init, controlparse_parsefd,
}
use static_distro.Shared.{◌≡◌, ◌≢◌, All, Option, some, false, codes}

abbrev two_paragraphs : Option File
two_paragraphs =
    some (record { contents = codes "Source: a\n\nPackage: b\n  c\n"; read_error = false })

controlparse_parsefd-Safe_example :
    (controlparse_parsefd controlparse_init two_paragraphs ≢ null_deref)
    × ((c : ControlParse)
        → controlparse_parsefd controlparse_init two_paragraphs ≡ ok c
        → All IsFilled c.paras)
controlparse_parsefd-Safe_example = controlparse_parsefd-Safe two_paragraphs
