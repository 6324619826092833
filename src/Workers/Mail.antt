-- ===== src/Workers/Mail.antt =====
-- app/integrations/email.py: the message of an invitation. Sending it is SMTP's.
use Prim.Native.String.{◌++◌ as str_append}
use tenantflow_api.Prelude.{String}
use tenantflow_api.Core.Config.{Settings}

pub record EmailMessage : Type 0 where
  pub subject : String
  pub from : String
  pub to : String
  pub content : String

unfoldable pub invitation_email : Settings → String → String → String → EmailMessage
invitation_email s to_email organization_name invitation_token = record {
  subject = str_append "Invitation to " organization_name;
  from = s.mail_from;
  to = to_email;
  content =
      str_append
        "You have been invited to join an organization in TenantFlow.\n\nInvitation token: "
        (str_append invitation_token "\nThis local-development message is captured by Mailpit.");
}
