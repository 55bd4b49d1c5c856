-- ===== src/Admission/Kapp.antt =====
-- pkg/admission/admission_kapp.go. Of the kapp app, the code reads the name of the secret of its cluster;
-- `none` stands for a cluster or a reference that is nil.
use Prim.Native.String.{◌++◌}
use potter_controller.Prelude.{Option, String, none, not, some, ◌&&◌, ◌==◌}
use potter_controller.Admission.Verdict.{Decoded, Denial, decoded, deny_if, undecoded}
use potter_controller.Api.{Raw}

unfoldable pub review_kapp_data : (Raw → Decoded (Option String)) → Raw → String → Denial
review_kapp_data unmarshal raw secret_ref = elim (unmarshal raw) [
  | undecoded e ↦ some ("error when unmarshalling kapp specific data: " ++ e)
  | decoded none ↦ none
  | decoded (some name) ↦
      deny_if (not (name == "") && not (name == secret_ref))
        "target cluster of kapp app differs from target cluster in clusterbom" none
]
